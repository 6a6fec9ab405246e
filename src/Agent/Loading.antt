-- ===== src/Agent/Loading.antt =====
-- The plugins that an agent has after the loading (agent/agent/agent.c: load_plugins).
use yella.Prelude.{
  ℕ, ◌≡◌, refl, sym, ap, ◌∙◌, ◌&&◌, List, [], ◌∷◌, ◌++◌, Option, none, some, if◌then◌else◌, Text,
  text_eq, append-nil, append_assoc, Bool-cases, Option-cases, inl, inr,
}
use yella.Sglib.Tree.{TreeOps, TreeLaws}
use yella.Plugin.{InCap, Plugin}
use yella.Agent.{
  Handler, PluginApi, SharedObject, Agent, handler_of, set_handler, set_handlers,
  close_shared_object, load_started, load_plugins,
}

-- The plugin of a shared object, if it is one whose functions are all there.
abbrev pub accepted : SharedObject → Option (Option Plugin) → Option Plugin
accepted so (some (some plugin)) = if so.has_status && so.has_stop then some plugin else none
accepted so _ = none

-- What the files add to the plugins, the capabilities and the closed objects.
abbrev pub apis : SharedObject → Option Plugin → List PluginApi
apis so none = []
apis so (some plugin) =
    record { name = plugin.name; shared_object = so.handle; udata = plugin.udata } ∷ []

abbrev pub caps : Option Plugin → List InCap
caps none = []
caps (some plugin) = plugin.in_caps

abbrev pub refused : SharedObject → Option Plugin → List ℕ
refused so none = so.handle ∷ []
refused so (some plugin) = []

module _ {ℓ} {A : Type ℓ} where
  abbrev pub of_files :
      (SharedObject → Option Plugin → List A) → List (Option SharedObject) → List A
  of_files f [] = []
  of_files f (none ∷ files) = of_files f files
  of_files f (some so ∷ files) = f so (accepted so so.start) ++ of_files f files

-- The handler of a type: that of the last capability with this name, if one has it.
abbrev pub latest : Text → List InCap → Option Handler → Option Handler
latest q [] before = before
latest q (cap ∷ cs) before =
    latest q cs (
      if text_eq q cap.name
      then some (record { func = cap.handler; udata = cap.udata })
      else before)

latest-append :
    (q : Text) (cs ds : List InCap) (before : Option Handler)
    → latest q (cs ++ ds) before ≡ latest q ds (latest q cs before)
latest-append q [] ds before = refl
latest-append q (c ∷ cs) ds before = latest-append q cs ds _

joined {ℓ} :
    {A : Type ℓ} (old bs cs new more : List A)
    → cs ≡ bs ++ more
    → bs ≡ old ++ (new ++ [])
    → cs ≡ old ++ (new ++ more)
joined old bs cs new more e f =
    e ∙ ap (λ t. t ++ more) (f ∙ ap (λ t. old ++ t) (append-nil new)) ∙ append_assoc old new more

module _ {H S : Type 0} (handlers : TreeOps H Handler) (senders : TreeOps S (Option ℕ))
    (laws : TreeLaws handlers) where
  -- From an agent to one with the plugins of some files.
  pub record Loaded (ag ag' : Agent H S) (files : List (Option SharedObject)) : Type 0 where
    pub tree : laws.IsTree ag'.in_handlers
    pub found :
        (q : Text)
        → handlers.find ag'.in_handlers q
          ≡ latest q (of_files (λ so p. caps p) files) (handlers.find ag.in_handlers q)
    pub plugins : ag'.plugins ≡ ag.plugins ++ of_files apis files
    pub closed : ag'.closed ≡ ag.closed ++ of_files refused files
    pub kept :
        (ag'.id ≡ ag.id)
        × (ag'.handled ≡ ag.handled)
        × (ag'.rtr ≡ ag.rtr)
        × (ag'.boot_count ≡ ag.boot_count)

  set_handler-find :
      (h : H) (name q : Text) (hndlr : Handler)
      → laws.IsTree h
      → laws.IsTree (set_handler handlers senders h name hndlr)
        × (handlers.find (set_handler handlers senders h name hndlr) q
            ≡ (if text_eq q name then some hndlr else handlers.find h q))
  unfolding set_handler
  set_handler-find h name q hndlr t = elim (Option-cases (handlers.find h name)) [
    | inl e ↦
        rw (e, set_handler) (laws.add-IsTree h name hndlr t e, laws.find-add h name hndlr q t e)
    | inr (found, e) ↦
        rw (e, set_handler) (laws.set-IsTree h name hndlr t, laws.find-set h name hndlr found q t e)
  ]

  set_handlers-find :
      (cs : List InCap) (h : H) (q : Text)
      → laws.IsTree h
      → laws.IsTree (set_handlers handlers senders h cs)
        × (handlers.find (set_handlers handlers senders h cs) q ≡ latest q cs (handlers.find h q))
  unfolding set_handlers
  set_handlers-find [] h q t = (t, refl)
  set_handlers-find (c ∷ cs) h q t =
      let (t1, e) = set_handler-find h c.name q (handler_of c) t in
      let (t2, e2) =
        set_handlers-find cs (set_handler handlers senders h c.name (handler_of c)) q t1 in
      (t2, e2 ∙ ap (latest q cs) e)

  Loaded-refused :
      (ag : Agent H S) (so : SharedObject)
      → accepted so so.start ≡ none
      → laws.IsTree ag.in_handlers
      → Loaded ag (close_shared_object handlers senders ag so) (some so ∷ [])
  unfolding close_shared_object
  Loaded-refused ag so e t = record {
    tree = t;
    found = λ q. rw e refl;
    plugins = rw e (sym (append-nil ag.plugins));
    closed = rw e refl;
    kept = (refl, refl, refl, refl);
  }

  started-Loaded :
      (ag : Agent H S) (so : SharedObject) (start : Option (Option Plugin))
      → so.start ≡ start
      → laws.IsTree ag.in_handlers
      → Loaded ag (load_started handlers senders ag so start) (some so ∷ [])
  unfolding load_started
  started-Loaded ag so none e t = Loaded-refused ag so (rw e refl) t
  started-Loaded ag so (some none) e t = Loaded-refused ag so (rw e refl) t
  started-Loaded ag so (some (some plugin)) e t = elim (Bool-cases (so.has_status && so.has_stop)) [
    | inr h ↦ rw h (Loaded-refused ag so (rw e (rw h refl)) t)
    | inl h ↦
        (let there : accepted so so.start ≡ some plugin = rw e (rw h refl) in
          rw h (record {
            tree = (set_handlers-find plugin.in_caps ag.in_handlers [] t).0;
            found = λ q.
                (set_handlers-find plugin.in_caps ag.in_handlers q t).1
                ∙ ap (λ cs. latest q cs (handlers.find ag.in_handlers q))
                    (sym (append-nil plugin.in_caps))
                ∙ ap (λ o. latest q (caps o ++ []) (handlers.find ag.in_handlers q)) (sym there);
            plugins = rw there refl;
            closed = rw there (sym (append-nil ag.closed));
            kept = (refl, refl, refl, refl);
          }))
  ]

  Loaded-trans :
      (ag ag1 ag2 : Agent H S) (so : SharedObject) (files : List (Option SharedObject))
      → Loaded ag ag1 (some so ∷ [])
      → Loaded ag1 ag2 files
      → Loaded ag ag2 (some so ∷ files)
  Loaded-trans ag ag1 ag2 so files a b =
      let new = caps (accepted so so.start) in
      record {
        tree = b.tree;
        found = λ q.
            b.found q
            ∙ ap (latest q (of_files (λ so p. caps p) files)) (
                a.found q
                ∙ ap (λ cs. latest q cs (handlers.find ag.in_handlers q)) (append-nil new))
            ∙ sym (
                latest-append q new (of_files (λ so p. caps p) files)
                  (handlers.find ag.in_handlers q));
        plugins = joined _ _ _ _ _ b.plugins a.plugins;
        closed = joined _ _ _ _ _ b.closed a.closed;
        kept = (b.kept.0 ∙ a.kept.0, b.kept.1 ∙ a.kept.1, b.kept.2 ∙ a.kept.2, b.kept.3 ∙ a.kept.3);
      }

  -- What the agent has after the loading of a directory of plugins, whatever is in it. The handler of
  -- a message's type is that of the last capability of this name among the plugins that were
  -- accepted, and as before where there is none. The plugins are those that were there and then the
  -- accepted ones, in order: the files that open, have all three functions and start; every other
  -- shared object that was opened is closed, and none that is accepted.
  pub load_plugins_lem :
      (files : List (Option SharedObject)) (ag : Agent H S)
      → laws.IsTree ag.in_handlers
      → Loaded ag (load_plugins handlers senders ag files) files
  unfolding load_plugins
  load_plugins_lem [] ag t = record {
    tree = t;
    found = λ q. refl;
    plugins = sym (append-nil ag.plugins);
    closed = sym (append-nil ag.closed);
    kept = (refl, refl, refl, refl);
  }
  load_plugins_lem (none ∷ files) ag t =
      let l = load_plugins_lem files ag t in
      record {
        tree = l.tree;
        found = l.found;
        plugins = l.plugins;
        closed = l.closed;
        kept = l.kept;
      }
  load_plugins_lem (some so ∷ files) ag t =
      let a = started-Loaded ag so so.start refl t in
      Loaded-trans ag _ _ so files a (load_plugins_lem files _ a.tree)
