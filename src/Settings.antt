-- ===== src/Settings.antt =====
-- The agent's settings (agent/common/settings.c): typed values by section and key, and their
-- retrieval from a YAML document.
use yella.Prelude.{
  ℕ, zero, suc, ◌+◌, ◌*◌, ◌^◌, ◌%◌, Bool, true, false, not, ◌&&◌, ◌||◌, List, [], ◌∷◌, ◌++◌, Option,
  none, some, ◌==◌, ltb, if◌then◌else◌, length, Text, text_eq,
}
use mathlib.Core.Option
use yella.Sglib.Tree.{TreeOps}
use yella.FilePath.{dir_sep, remove_duplicate_dir_seps}
pub mod Values
unfoldable pub use Values.*
pub mod Sizes
pub mod Lookup
mod Tests

-- `S` are the trees of sections, and `T` those of a section's settings.
module _ {S T : Type 0} (sections : TreeOps S T) (settings : TreeOps T Setting) where
  unfoldable pub get_value : S → Text → Text → ValueType → Got
  get_value s sct key type = elim (sections.find s sct) [
    | none ↦ null
    | some found ↦ elim (settings.find found key) [
      | none ↦ null
      | some setting ↦ if type_eq setting.type type then read_as type setting.value else null
    ]
  ]

  -- The section, which is added if it is not there.
  unfoldable pub with_section : S → Text → S × T
  with_section s sct = elim (sections.find s sct) [
    | none ↦ (sections.add s sct settings.empty, settings.empty)
    | some found ↦ (s, found)
  ]

  -- `none` is the release of a number other than zero, which is NULL, as if it were a text.
  unfoldable pub set_text : T → Text → Text → ValueType → Option T
  set_text t key val type = elim (settings.find t key) [
    | none ↦ some (settings.add t key (record { value = text val; type = type }))
    | some found ↦ elim found.value [
      | text old ↦ some (settings.set t key (record found { value = text val }))
      | uint n ↦
          if n == 0 then some (settings.set t key (record found { value = text val })) else none
    ]
  ]

  unfoldable pub set_uint : T → Text → ℕ → ValueType → T
  set_uint t key val type = elim (settings.find t key) [
    | none ↦ settings.add t key (record { value = uint val; type = type })
    | some found ↦ settings.set t key (record found { value = uint val })
  ]

  unfoldable pub set_text_impl : S → Text → Text → Text → ValueType → Option S
  set_text_impl s sct key val type =
      let (s', found) = with_section s sct in
      elim (set_text found key val type) [ none ↦ none | some t ↦ some (sections.set s' sct t) ]

  unfoldable pub set_uint_impl : S → Text → Text → ℕ → ValueType → S
  set_uint_impl s sct key val type =
      let (s', found) = with_section s sct in sections.set s' sct (set_uint found key val type)

-- A character of a text; behind the last there is a zero.
abbrev pub char_at : Text → ℕ → ℕ
char_at [] i = 0
char_at (c ∷ cs) zero = c
char_at (c ∷ cs) (suc i) = char_at cs i

-- `u_strchr(u"bkmg", c) != NULL`, which finds the terminator too
abbrev pub in_bkmg : ℕ → Bool
in_bkmg c = c == 98 || c == 107 || c == 109 || c == 103 || c == 0

-- `num` times the unit of the suffix in lower case, in 32 bits; zero for what is no suffix.
unfoldable pub suffix_size : ℕ → Text → ℕ
suffix_size num lower =
    if ltb 2 (length lower)
      || (length lower == 2 && not (char_at lower 1 == 98))
      || (length lower == 2 && char_at lower 0 == 98)
      || not (in_bkmg (char_at lower 0))
    then 0
    else if char_at lower 0 == 107
    then num * 1024 % 2 ^ 32
    else if char_at lower 0 == 109
    then num * (1024 * 1024) % 2 ^ 32
    else if char_at lower 0 == 103
    then num * (1024 * 1024 * 1024) % 2 ^ 32
    else num

-- What ICU makes of a text: `u_isdigit` of a character, `u_sscanf_u` with "%u%3S" (how many items,
-- the number and the suffix), and `u_strToLower` of a suffix, `none` for its failure.
pub record Icu : Type 0 where
  pub isdigit : ℕ → Bool
  pub scan : Text → ℕ × ℕ × Text
  pub to_lower : Text → Option Text

-- The number that `yella_settings_set_byte_size` comes by; zero is not set.
unfoldable pub byte_size_of : Icu → Text → ℕ
byte_size_of icu [] = 0
byte_size_of icu (c ∷ cs) =
    let (len, num, suffix) = icu.scan (c ∷ cs) in
    if not (icu.isdigit c)
    then 0
    else if len == 2
    then (elim (icu.to_lower suffix) [ none ↦ num | some lower ↦ suffix_size num lower ])
    else if len == 1
    then num
    else 0

-- `yella_setting_desc`
pub record Desc : Type 0 where
  pub key : Text
  pub type : ValueType

abbrev pub find_desc : List Desc → Text → Option Desc
find_desc [] key = none
find_desc (d ∷ ds) key = if text_eq d.key key then some d else find_desc ds key

-- A name that ends in the separator, unless it is empty.
abbrev pub end_in_sep : Text → Text
end_in_sep [] = []
end_in_sep (c ∷ []) = if c == dir_sep then c ∷ [] else c ∷ dir_sep ∷ []
end_in_sep (c ∷ cs) = c ∷ end_in_sep cs

-- `yaml_node_t`, with the nodes that the document's indices stand for. A document with an alias inside
-- its own anchor, which the retrieval follows for ever, is none of this type.
mutual
  pub data Yaml : Type 0 where
    scalar : Text → Yaml
    mapping : Pairs → Yaml
    sequence : Nodes → Yaml

  pub data Pairs : Type 0 where
    no_pairs : Pairs
    pair : Yaml → Yaml → Pairs → Pairs

  pub data Nodes : Type 0 where
    no_nodes : Nodes
    node : Yaml → Nodes → Nodes

-- `strtoull` is what C's makes of a scalar.
module _ {S T : Type 0} (sections : TreeOps S T) (settings : TreeOps T Setting) (icu : Icu)
    (strtoull : Text → ℕ) where
  unfoldable pub set_byte_size : S → Text → Text → Text → S
  set_byte_size s sct key val =
      let num = byte_size_of icu val in
      if ltb 0 num then set_uint_impl sections settings s sct key num byte_size_type else s

  unfoldable pub set_dir : S → Text → Text → Text → Option S
  set_dir s sct key val =
      set_text_impl sections settings s sct key (end_in_sep (remove_duplicate_dir_seps val))
        dir_type

  -- A scalar under a key that is described.
  unfoldable pub set_scalar : S → Text → Desc → Text → Option S
  set_scalar s sct desc val = elim desc.type [
    | text_type ↦ set_text_impl sections settings s sct desc.key val text_type
    | dir_type ↦ set_dir s sct desc.key val
    | byte_size_type ↦ some (set_byte_size s sct desc.key val)
    | uint_type ↦ some (set_uint_impl sections settings s sct desc.key (strtoull val) uint_type)
  ]

  -- The value of a key that is not the section's name.
  unfoldable pub handle_value : S → Text → List Desc → Text → Yaml → Option S
  handle_value s sct descs key (scalar val) = elim (find_desc descs key) [
    | none ↦ some s
    | some desc ↦ set_scalar s sct desc val
  ]
  handle_value s sct descs key _ = some s

  -- `handle_yaml_node` where no key is given: a scalar is then of no use. `none` is a fault.
  mutual
    pub handle_yaml_node : S → Text → List Desc → Yaml → Option S
    handle_yaml_node s sct descs (scalar val) = some s
    handle_yaml_node s sct descs (mapping ps) = handle_pairs s sct descs ps
    handle_yaml_node s sct descs (sequence ns) = handle_items s sct descs ns

    pub handle_pairs : S → Text → List Desc → Pairs → Option S
    handle_pairs s sct descs no_pairs = some s
    handle_pairs s sct descs (pair (scalar key) val ps) =
        if text_eq key sct
        then Option.bind (handle_yaml_node s sct descs val) (λ s'. handle_pairs s' sct descs ps)
        else Option.bind (handle_value s sct descs key val) (λ s'. handle_pairs s' sct descs ps)
    handle_pairs s sct descs (pair _ val ps) = handle_pairs s sct descs ps

    pub handle_items : S → Text → List Desc → Nodes → Option S
    handle_items s sct descs no_nodes = some s
    handle_items s sct descs (node n ns) =
        Option.bind (handle_yaml_node s sct descs n) (λ s'. handle_items s' sct descs ns)
