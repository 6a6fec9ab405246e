-- ===== src/Settings/Sizes.antt =====
-- The suffixes of a byte size (agent/common/settings.c: yella_settings_set_byte_size).
use yella.Prelude.{
  ℕ, ◌*◌, ◌^◌, ◌%◌, ◌<◌, ◌≡◌, arith, ◌||◌, [], ◌∷◌, Option, none, some, if◌then◌else◌, Text, codes,
  text_eq,
}
use yella.Settings.{suffix_size}

-- The suffixes that the error message promises, in lower case: b, k[b], m[b] and g[b].
unfoldable pub unit_of : Text → Option ℕ
unit_of lower =
    if text_eq lower (codes "b")
    then some 1
    else if text_eq lower (codes "k") || text_eq lower (codes "kb")
    then some 1024
    else if text_eq lower (codes "m") || text_eq lower (codes "mb")
    then some (1024 ^ 2)
    else if text_eq lower (codes "g") || text_eq lower (codes "gb")
    then some (1024 ^ 3)
    else none

-- The size that a number and a unit promise, in 32 bits; none for no unit.
unfoldable pub sized : ℕ → Option ℕ → ℕ
sized num none = 0
sized num (some unit) = num * unit % 2 ^ 32

-- For a suffix that does not begin with a zero, and a 32-bit number, the chain of conditions
-- gives the number times the unit of the table b, k, kb, m, mb, g, gb, in 32 bits, and zero for
-- every other suffix.
pub suffix_size_lem :
    (num c : ℕ) (cs : Text)
    → num < 2 ^ 32
    → 0 < c
    → suffix_size num (c ∷ cs) ≡ sized num (unit_of (c ∷ cs))
unfolding suffix_size sized unit_of
suffix_size_lem num c [] small nonzero = ground arith
suffix_size_lem num c (d ∷ []) small nonzero = ground arith
suffix_size_lem num c (d ∷ e ∷ cs) small nonzero = ground arith
