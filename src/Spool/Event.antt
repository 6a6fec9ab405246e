-- ===== src/Spool/Event.antt =====
-- The bytes of one event in a spool file (agent/agent/spool.c): a 16-bit count of message parts
-- whose top bit says that the event was read, then for each part a 32-bit size and the data.
use yella.Prelude.{
  ℕ, zero, suc, ◌+◌, ◌*◌, ◌/◌, ◌%◌, ◌^◌, ◌<◌, ◌≡◌, refl, ap, Bool, List, [], ◌∷◌, ◌++◌, arith, ◌==◌,
  if◌then◌else◌, length, take, drop,
}

abbrev pub Bytes : Type 0
Bytes = List ℕ

-- What `fwrite` of a `k`-byte unsigned integer puts in the file (little-endian, as on x86 and ARM).
unfoldable pub bytes_of : ℕ → ℕ → Bytes
bytes_of zero n = []
bytes_of (suc k) n = (n % 256) ∷ bytes_of k (n / 256)

-- What `fread` of such an integer yields.
unfoldable pub value_of : Bytes → ℕ
value_of [] = 0
value_of (b ∷ bs) = b + 256 * value_of bs

-- `YELLA_SPOOL_ID`, `YELLA_MAX_MSG_COUNT`, `YELLA_VISITED_BIT`
abbrev pub spool_id : ℕ
spool_id = 0x9311a59001

abbrev pub max_msg_count : ℕ
max_msg_count = 0x0fff

abbrev pub visited_bit : ℕ
visited_bit = 2 ^ 15

-- `YELLA_EVENT_IS_VISITED` and `YELLA_EVENT_MSG_COUNT` of a 16-bit value: its bit 15 and the rest.
unfoldable pub event_is_visited : ℕ → Bool
event_is_visited n = n / visited_bit % 2 == 1

unfoldable pub event_msg_count : ℕ → ℕ
event_msg_count n = n % visited_bit

-- `msg_count |= YELLA_VISITED_BIT`
unfoldable pub set_visited : ℕ → ℕ
set_visited n = if event_is_visited n then n else n + visited_bit

-- `len = msgs[i].size`, a `uint32_t`
unfoldable pub part_size : Bytes → ℕ
part_size d = length d % 2 ^ 32

-- One part as `spool_push` writes it, and a whole event with its header.
unfoldable pub encode_part : Bytes → Bytes
encode_part d = bytes_of 4 (part_size d) ++ take (part_size d) d

unfoldable pub encode_parts : List Bytes → Bytes
encode_parts [] = []
encode_parts (d ∷ ds) = encode_part d ++ encode_parts ds

unfoldable pub encode_event : ℕ → List Bytes → Bytes
encode_event header ds = bytes_of 2 (header % 2 ^ 16) ++ encode_parts ds

-- `fread(&x, 1, n, f)` at an offset: the bytes got, fewer than `n` at the end of the file.
unfoldable pub read_at : Bytes → ℕ → ℕ → Bytes
read_at file off n = take n (drop off file)

pub length-bytes_of : (k n : ℕ) → length (bytes_of k n) ≡ k
unfolding bytes_of
length-bytes_of zero n = refl
length-bytes_of (suc k) n = ap suc (length-bytes_of k (n / 256))

pub value_of-bytes_of_two : (n : ℕ) → n < 2 ^ 16 → value_of (bytes_of 2 n) ≡ n
unfolding value_of bytes_of
value_of-bytes_of_two n h = omega arith

pub value_of-bytes_of_four : (n : ℕ) → n < 2 ^ 32 → value_of (bytes_of 4 n) ≡ n
unfolding value_of bytes_of
value_of-bytes_of_four n h = omega arith

-- A part whose size fits 32 bits.
abbrev pub Fits : Bytes → Type 0
Fits d = length d < 2 ^ 32

pub take-all {ℓ} : {A : Type ℓ} (xs : List A) (n : ℕ) → n ≡ length xs → take n xs ≡ xs
take-all [] zero e = refl
take-all [] (suc n) e = refl
take-all (x ∷ xs) zero e = absurd (omega arith)
take-all (x ∷ xs) (suc n) e = ap (λ t. x ∷ t) (take-all xs n (omega arith))

pub encode_part-Fits : (d : Bytes) → Fits d → encode_part d ≡ bytes_of 4 (length d) ++ d
unfolding encode_part part_size
encode_part-Fits d h =
    let e : length d % 2 ^ 32 ≡ length d = omega arith in rw (e, take-all d (length d) refl)

pub drop-drop {ℓ} : {A : Type ℓ} (xs : List A) (m n : ℕ) → drop n (drop m xs) ≡ drop (m + n) xs
drop-drop xs zero n = ap (λ k. drop k xs) (omega arith)
drop-drop [] (suc m) zero = rw add_suc_eq
  where
    add_suc_eq : suc m + 0 ≡ suc (m + 0)
    add_suc_eq = omega arith
drop-drop [] (suc m) (suc n) = rw add_suc_eq
  where
    add_suc_eq : suc m + suc n ≡ suc (m + suc n)
    add_suc_eq = omega arith
drop-drop (x ∷ xs) (suc m) n = rw add_suc_eq (drop-drop xs m n)
  where
    add_suc_eq : suc m + n ≡ suc (m + n)
    add_suc_eq = omega arith
