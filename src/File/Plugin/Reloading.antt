-- ===== src/File/Plugin/Reloading.antt =====
-- The nodes that are loaded of those that were saved (agent/plugin/file/file_plugin.c: save_configs,
-- load_configs).
use mathlib.Core.Option
use yella.Prelude.{
  ◌≡◌, refl, sym, ap, subst, ◌∙◌, arith, Bool, true, false, List, [], ◌∷◌, Option, none, some, map,
  if◌then◌else◌, ◌&&◌, Text, text_eq, text_eq_iff, text_eq_refl, Bool-cases, Option-cases, inl, inr,
  All, All-mono,
}
use yella.External.{Utf8, RoundTrips, is_converted, all_converted}
use yella.Sglib.Tree.{TreeOps, TreeLaws, AreApart}
use yella.File.Attribute.Types.{AttributeType, attribute_type_to_fb, attribute_type-round}
use yella.File.EventSource.{Spec}
use yella.File.EventSource.Lookup.{added_spec}
use yella.File.Plugin.{Config, FbConfig, spec_of, config_to_fb, is_told, are_told}
use yella.File.Plugin.Books.{map_if}
use yella.File.Plugin.Request.{known_types}
use yella.File.Plugin.Saved.{node_of, load_nodes}

-- A configuration as it is loaded: its types, with memory of their own.
abbrev pub reloaded : Config → Config
reloaded cfg = record cfg { released = false }

abbrev pub reloaded_node : Text × Config → Text × Config
reloaded_node n = (n.0, reloaded n.1)

abbrev pub spec_node : Text × Config → Text × Spec
spec_node n = (n.0, spec_of n.1)

-- The last entry with a key.
abbrev pub last_entry : Text → Option Config → List (Text × Config) → Option Config
last_entry q o [] = o
last_entry q o (n ∷ ns) = last_entry q (if text_eq q n.0 then some n.1 else o) ns

types-round : (atps : List AttributeType) → known_types (map attribute_type_to_fb atps) ≡ some atps
unfolding known_types
types-round [] = refl
types-round (a ∷ atps) = rw (attribute_type-round a, types-round atps, known_types) refl

pub added_spec-last :
    (q : Text) (ns : List (Text × Config)) (o : Option Config)
    → added_spec q (Option.map spec_of o) (map spec_node ns)
      ≡ Option.map spec_of (last_entry q o ns)
added_spec-last q [] o = refl
added_spec-last q (n ∷ ns) o =
    ap (λ t. added_spec q t (map spec_node ns)) (map_if (text_eq q n.0) (some n.1) o)
    ∙ added_spec-last q ns (if text_eq q n.0 then some n.1 else o)

both_true : (a b : Bool) → a && b ≡ true → (a ≡ true) × (b ≡ true)
both_true true b h = (refl, h)
both_true false b h = absurd (ground arith)

module _ {C : Type 0} (config_ops : TreeOps C Config) (config_laws : TreeLaws config_ops)
    (utf : Utf8) (round : RoundTrips utf) where
  converted_first :
      (t : Text) (ts : List Text)
      → all_converted utf (t ∷ ts) ≡ true
      → (is_converted utf t ≡ true) × (all_converted utf ts ≡ true)
  unfolding all_converted
  converted_first t ts h = both_true _ _ h

  map-round :
      (ts : List Text) → all_converted utf ts ≡ true → map utf.from_utf8 (map utf.to_utf8 ts) ≡ ts
  map-round [] h = refl
  map-round (t ∷ ts) h = let (c, cs) = converted_first t ts h in simp (round t c, map-round ts cs)

  node-round :
      (n : Text × Config)
      → is_told utf n ≡ true
      → node_of utf (config_to_fb utf n) n.1.attr_types ≡ reloaded_node n
  unfolding is_told
  node-round (name, cfg) h =
      let (names, lists) = both_true _ _ h in
      let (c, rest) = converted_first name (cfg.recipient ∷ []) names in
      let r = (converted_first cfg.recipient [] rest).0 in
      let (i, x) = both_true _ _ lists in
      ground (
        arith,
        round name c,
        round cfg.recipient r,
        map-round cfg.includes i,
        map-round cfg.excludes x,
      )

  load_nodes-step :
      (cfg : FbConfig) (cfgs : List FbConfig) (t : C) (atps : List AttributeType)
      (node : Text × Config) (loaded : C) (especs : List (Text × Spec))
      → known_types cfg.attribute_types ≡ some atps
      → node_of utf cfg atps ≡ node
      → load_nodes config_ops utf cfgs (config_ops.add t node.0 node.1) ≡ some (loaded, especs)
      → load_nodes config_ops utf (cfg ∷ cfgs) t ≡ some (loaded, spec_node node ∷ especs)
  unfolding load_nodes
  load_nodes-step cfg cfgs t atps node loaded especs k e =
      subst
        (λ nd.
          load_nodes config_ops utf cfgs (config_ops.add t nd.0 nd.1) ≡ some (loaded, especs)
          → load_nodes config_ops utf (cfg ∷ cfgs) t ≡ some (loaded, spec_node nd ∷ especs))
        e (λ h. rw (k, load_nodes) (rw h refl))

  absent_still :
      (ns : List (Text × Config)) (n : Text × Config) (t : C)
      → config_laws.IsTree t
      → config_ops.find t n.0 ≡ none
      → All (λ m. text_eq m.0 n.0 ≡ false) ns
      → All (λ m. config_ops.find t m.0 ≡ none) ns
      → All (λ m. config_ops.find (config_ops.add t n.0 (reloaded n.1)) m.0 ≡ none) ns
  absent_still [] n t tree gone a b = tt
  absent_still (m ∷ ns) n t tree gone a b = (
    config_laws.find-add t n.0 (reloaded n.1) m.0 tree gone ∙ rw a.0 b.0,
    absent_still ns n t tree gone a.1 b.1,
  )

  nothing_loaded : (t : C) → load_nodes config_ops utf [] t ≡ some (t, [])
  unfolding load_nodes
  nothing_loaded t = refl

  -- Nodes with new names, no two of one name, are all loaded.
  load_nodes-round :
      (ns : List (Text × Config)) (t : C)
      → config_laws.IsTree t
      → AreApart ns
      → All (λ n. config_ops.find t n.0 ≡ none) ns
      → are_told utf ns ≡ true
      → (loaded : C) × (load_nodes config_ops utf (map (config_to_fb utf) ns) t
          ≡ some (loaded, map spec_node (map reloaded_node ns)))
        × config_laws.IsTree loaded
        × ((q : Text)
            → config_ops.find loaded q ≡ last_entry q (config_ops.find t q) (map reloaded_node ns))
  unfolding are_told
  load_nodes-round [] t tree apart absent told = (t, nothing_loaded t, tree, λ q. refl)
  load_nodes-round (n ∷ ns) t tree apart absent told =
      let (c, cs) = both_true _ _ told in
      let node = reloaded_node n in
      let tree1 = config_laws.add-IsTree t node.0 node.1 tree absent.0 in
      let (loaded, e, tree2, found) =
        load_nodes-round ns (config_ops.add t node.0 node.1) tree1 apart.1
          (absent_still ns n t tree absent.0 apart.0 absent.1) cs in
      (
        loaded,
        load_nodes-step (config_to_fb utf n) (map (config_to_fb utf) ns) t n.1.attr_types node
            loaded (map spec_node (map reloaded_node ns)) (types-round n.1.attr_types)
            (node-round n c) e,
        tree2,
        λ q.
            found q
            ∙ ap (λ o. last_entry q o (map reloaded_node ns))
                (config_laws.find-add t node.0 node.1 q tree absent.0),
      )

  last_entry-gone :
      (ns : List (Text × Config)) (q : Text) (o : Option Config)
      → last_entry q o ns ≡ none
      → (o ≡ none) × All (λ n. text_eq q n.0 ≡ false) ns
  last_entry-gone [] q o h = (h, tt)
  last_entry-gone (n ∷ ns) q o h =
      let (e, rest) = last_entry-gone ns q (if text_eq q n.0 then some n.1 else o) h in
      elim (Bool-cases (text_eq q n.0)) [
        | inl same ↦ absurd (ground (arith, same))
        | inr other ↦ (ground (arith, other), (other, rest))
      ]

  last_entry-found :
      (ns : List (Text × Config)) (t : C) (q : Text) (o : Option Config) (cfg : Config)
      → ((w : Config) → o ≡ some w → config_ops.find t q ≡ some w)
      → All (λ n. config_ops.find t n.0 ≡ some n.1) ns
      → last_entry q o ns ≡ some cfg
      → config_ops.find t q ≡ some cfg
  last_entry-found [] t q o cfg h all e = h cfg e
  last_entry-found (n ∷ ns) t q o cfg h all e =
      last_entry-found ns t q (if text_eq q n.0 then some n.1 else o) cfg
        (λ w f. elim (Bool-cases (text_eq q n.0)) [
          | inl same ↦
              (let k : config_ops.find t q ≡ some n.1 =
                  ap (config_ops.find t) ((text_eq_iff q n.0).0 same) ∙ all.0 in
                k ∙ rw (← f, same) refl)
          | inr other ↦ h w (rw (← f, other) refl)
        ])
        all.1 e

  -- The entries of a tree are what it finds.
  pub last_entry-iterate :
      (t : C) (q : Text)
      → config_laws.IsTree t
      → last_entry q none (config_ops.iterate t) ≡ config_ops.find t q
  last_entry-iterate t q tree = elim (Option-cases (last_entry q none (config_ops.iterate t))) [
    | inr (cfg, e) ↦
        e
        ∙ sym (
            last_entry-found (config_ops.iterate t) t q none cfg (λ w f. absurd (ground arith))
              (config_laws.iterate-find t tree) e)
    | inl e ↦ elim (Option-cases (config_ops.find t q)) [
      | inl f ↦ e ∙ sym f
      | inr (cfg, f) ↦
          (let never : text_eq q q ≡ false =
              config_laws.find-iterate t q cfg (λ n. text_eq q n.0 ≡ false) tree f
                (last_entry-gone (config_ops.iterate t) q none e).1 in
            absurd (let yes' = text_eq_refl q in ground arith))
    ]
  ]

  reloaded-if :
      (b : Bool) (cfg : Config) (o : Option Config)
      → (if b then some (reloaded cfg) else Option.map reloaded o)
        ≡ Option.map reloaded (if b then some cfg else o)
  reloaded-if true cfg o = refl
  reloaded-if false cfg o = refl

  pub last_entry-reloaded :
      (ns : List (Text × Config)) (q : Text) (o : Option Config)
      → last_entry q (Option.map reloaded o) (map reloaded_node ns)
        ≡ Option.map reloaded (last_entry q o ns)
  last_entry-reloaded [] q o = refl
  last_entry-reloaded (n ∷ ns) q o =
      ap (λ t. last_entry q t (map reloaded_node ns)) (reloaded-if (text_eq q n.0) n.1 o)
      ∙ last_entry-reloaded ns q (if text_eq q n.0 then some n.1 else o)

  pub load_nodes-iterate :
      (t : C)
      → config_laws.IsTree t
      → are_told utf (config_ops.iterate t) ≡ true
      → (loaded : C) × (load_nodes config_ops utf
            (map (config_to_fb utf) (config_ops.iterate t))
            config_ops.empty
          ≡ some (loaded, map spec_node (map reloaded_node (config_ops.iterate t))))
        × config_laws.IsTree loaded
        × ((q : Text) → config_ops.find loaded q ≡ Option.map reloaded (config_ops.find t q))
  load_nodes-iterate t tree told =
      let ns = config_ops.iterate t in
      let (loaded, e, tree', found) =
        load_nodes-round ns config_ops.empty config_laws.empty-IsTree
          (config_laws.iterate-AreApart t tree)
          (All-mono _ (λ n. config_ops.find config_ops.empty n.0 ≡ none) ns
            (λ n h. config_laws.find-empty n.0) (config_laws.iterate-find t tree))
          told in
      (
        loaded,
        e,
        tree',
        λ q.
            found q
            ∙ ap (λ o. last_entry q o (map reloaded_node ns)) (config_laws.find-empty q)
            ∙ last_entry-reloaded ns q none
            ∙ ap (Option.map reloaded) (last_entry-iterate t q tree),
      )
