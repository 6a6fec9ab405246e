-- ===== src/Settings/Values.antt =====
-- The settings' values and their types (agent/common/settings.c, agent/common/settings.h).
use yella.Prelude.{ℕ, Bool, true, false, Text}

-- `yella_setting_value_type`
pub data ValueType : Type 0 where
  text_type uint_type dir_type byte_size_type : ValueType

unfoldable pub type_eq : ValueType → ValueType → Bool
type_eq text_type text_type = true
type_eq uint_type uint_type = true
type_eq dir_type dir_type = true
type_eq byte_size_type byte_size_type = true
type_eq _ _ = false

-- The union of `struct setting`, by the member that was written last.
pub data Value : Type 0 where
  text : Text → Value
  uint : ℕ → Value

-- `struct setting` but for its key and the links
pub record Setting : Type 0 where
  pub value : Value
  pub type : ValueType

-- What a getter returns: NULL, a value, or the union's other member taken for the one asked for.
pub data Got : Type 0 where
  null : Got
  got : Value → Got
  misread : Got

abbrev pub read_text : Value → Got
read_text (text t) = got (text t)
read_text (uint n) = misread

abbrev pub read_uint : Value → Got
read_uint (uint n) = got (uint n)
read_uint (text t) = misread

abbrev pub read_as : ValueType → Value → Got
read_as text_type v = read_text v
read_as uint_type v = read_uint v
read_as dir_type v = read_text v
read_as byte_size_type v = read_uint v
