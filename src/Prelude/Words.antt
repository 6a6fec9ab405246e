-- ===== src/Prelude/Words.antt =====
-- Machine integers.
use Prim.Native.Nat.{ℕ, ◌+◌, ◌-◌, ◌%◌, ◌^◌, Ordering}
use yella.Prelude.Tests.{◌==◌, ltb, if◌then◌else◌}

-- The sign of a difference that C stores in an `int32_t`.
abbrev pub sign32 : ℕ → ℕ → Ordering
sign32 a b =
    let d = (a + 2 ^ 64 - b) % 2 ^ 32 in
    if d == 0 then Ordering.eq else if ltb d (2 ^ 31) then Ordering.gt else Ordering.lt
