-- ===== src/Heartbeat/Capabilities.antt =====
-- What a heartbeat tells of the plugins (agent/agent/heartbeat.c).
use yella.Prelude.{
  ℕ, true, false, ◌≡◌, refl, sym, ap, ◌∙◌, List, [], ◌∷◌, ◌++◌, map, Option, none, some, Text,
  append-nil, append_assoc,
}
use yella.External.{Utf8, all_converted}
use yella.Plugin.{InCap, OutCap, Plugin}
use yella.Heartbeat.{
  FbCapability, FbHeartbeat, texts_of_plugins, heartbeat_table, push_started, push_configs,
  in_cap_to_fb, out_cap_to_fb, push_in_caps, push_out_caps, in_capabilities_of, out_capabilities_of,
  create_heartbeat,
}

-- A vector that is there if it has an item, and the vector with more items.
abbrev pub vector : {A : Type 0} → List A → Option (List A)
vector [] = none
vector (a ∷ as') = some (a ∷ as')

-- All capabilities of some plugins, in order.
abbrev pub all_in_caps : List Plugin → List InCap
all_in_caps [] = []
all_in_caps (plg ∷ plgs) = plg.in_caps ++ all_in_caps plgs

abbrev pub all_out_caps : List Plugin → List OutCap
all_out_caps [] = []
all_out_caps (plg ∷ plgs) = plg.out_caps ++ all_out_caps plgs

-- The capability as it was declared, with its configurations.
abbrev pub told_in : Utf8 → InCap → FbCapability
told_in utf cap = record {
  name = utf.to_utf8 cap.name;
  version = cap.version;
  configurations = vector (map utf.to_utf8 cap.configs);
}

abbrev pub told_out : Utf8 → OutCap → FbCapability
told_out utf cap = record {
  name = utf.to_utf8 cap.name;
  version = cap.version;
  configurations = none;
}

push_vector :
    {A : Type 0} (done : List A) (a : A) → push_started (vector done) a ≡ vector (done ++ a ∷ [])
unfolding push_started
push_vector [] a = refl
push_vector (d ∷ done) a = refl

module _ (utf : Utf8) where
  configs-vector :
      (cs done : List Text)
      → push_configs utf (vector done) cs ≡ vector (done ++ map utf.to_utf8 cs)
  unfolding push_configs
  configs-vector [] done = ap vector (sym (append-nil done))
  configs-vector (c ∷ cs) done =
      ap (λ v. push_configs utf v cs) (push_vector done (utf.to_utf8 c))
      ∙ configs-vector cs (done ++ utf.to_utf8 c ∷ [])
      ∙ ap vector (append_assoc done (utf.to_utf8 c ∷ []) (map utf.to_utf8 cs))

  in_cap-told : (cap : InCap) → in_cap_to_fb utf cap ≡ told_in utf cap
  unfolding in_cap_to_fb
  in_cap-told cap =
      ap
        (λ (v : Option (List Text)). record {
          name = utf.to_utf8 cap.name;
          version = cap.version;
          configurations = v;
        })
        (configs-vector cap.configs [])

  in_caps-vector :
      (caps : List InCap) (done : List FbCapability)
      → push_in_caps utf (vector done) caps ≡ vector (done ++ map (told_in utf) caps)
  unfolding push_in_caps
  in_caps-vector [] done = ap vector (sym (append-nil done))
  in_caps-vector (cap ∷ caps) done =
      ap (λ v. push_in_caps utf v caps)
        (ap (push_started (vector done)) (in_cap-told cap) ∙ push_vector done (told_in utf cap))
      ∙ in_caps-vector caps (done ++ told_in utf cap ∷ [])
      ∙ ap vector (append_assoc done (told_in utf cap ∷ []) (map (told_in utf) caps))

  out_caps-vector :
      (caps : List OutCap) (done : List FbCapability)
      → push_out_caps utf (vector done) caps ≡ vector (done ++ map (told_out utf) caps)
  unfolding push_out_caps out_cap_to_fb
  out_caps-vector [] done = ap vector (sym (append-nil done))
  out_caps-vector (cap ∷ caps) done =
      ap (λ v. push_out_caps utf v caps) (push_vector done (told_out utf cap))
      ∙ out_caps-vector caps (done ++ told_out utf cap ∷ [])
      ∙ ap vector (append_assoc done (told_out utf cap ∷ []) (map (told_out utf) caps))

  map-append : {A B : Type 0} (f : A → B) (xs ys : List A) → map f (xs ++ ys) ≡ map f xs ++ map f ys
  map-append f [] ys = refl
  map-append f (x ∷ xs) ys = ap (λ t. f x ∷ t) (map-append f xs ys)

  in_capabilities-vector :
      (plgs : List Plugin) (done : List FbCapability)
      → in_capabilities_of utf (vector done) plgs
        ≡ vector (done ++ map (told_in utf) (all_in_caps plgs))
  unfolding in_capabilities_of
  in_capabilities-vector [] done = ap vector (sym (append-nil done))
  in_capabilities-vector (plg ∷ plgs) done =
      let new = map (told_in utf) plg.in_caps in
      let more = map (told_in utf) (all_in_caps plgs) in
      ap (λ v. in_capabilities_of utf v plgs) (in_caps-vector plg.in_caps done)
      ∙ in_capabilities-vector plgs (done ++ new)
      ∙ ap vector (
          append_assoc done new more
          ∙ ap (λ t. done ++ t) (sym (map-append (told_in utf) plg.in_caps (all_in_caps plgs))))

  out_capabilities-vector :
      (plgs : List Plugin) (done : List FbCapability)
      → out_capabilities_of utf (vector done) plgs
        ≡ vector (done ++ map (told_out utf) (all_out_caps plgs))
  unfolding out_capabilities_of
  out_capabilities-vector [] done = ap vector (sym (append-nil done))
  out_capabilities-vector (plg ∷ plgs) done =
      let new = map (told_out utf) plg.out_caps in
      let more = map (told_out utf) (all_out_caps plgs) in
      ap (λ v. out_capabilities_of utf v plgs) (out_caps-vector plg.out_caps done)
      ∙ out_capabilities-vector plgs (done ++ new)
      ∙ ap vector (
          append_assoc done new more
          ∙ ap (λ t. done ++ t) (sym (map-append (told_out utf) plg.out_caps (all_out_caps plgs))))

  -- If `yella_to_utf8` converts the identity and all names, there is a heartbeat, and it tells of every
  -- capability of every plugin, once and in the order of the plugins and of their capabilities, with
  -- its name, its version and, of one that receives, the names of all its configurations in order; a
  -- vector is there just where it has an item. If a text is not converted, the heartbeat runs into the
  -- NULL text.
  pub create_heartbeat_lem :
      {X : Type 0} (host : X) (now : ℕ) (id : Text) (plugins : List Plugin)
      → (all_converted utf (id ∷ texts_of_plugins utf plugins) ≡ true
          → (hb : FbHeartbeat X) × (create_heartbeat utf host now id plugins ≡ some hb)
            × (hb.in_capabilities ≡ vector (map (told_in utf) (all_in_caps plugins)))
            × (hb.out_capabilities ≡ vector (map (told_out utf) (all_out_caps plugins))))
        × (all_converted utf (id ∷ texts_of_plugins utf plugins) ≡ false
            → create_heartbeat utf host now id plugins ≡ none)
  unfolding create_heartbeat heartbeat_table
  create_heartbeat_lem host now id plugins = (
    λ c. (
      heartbeat_table utf host now id plugins,
      rw c refl,
      in_capabilities-vector plugins [],
      out_capabilities-vector plugins [],
    ),
    λ c. rw c refl,
  )
