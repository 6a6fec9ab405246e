-- ===== src/Spool/Files.antt =====
-- The spool directory (agent/agent/spool.c): file positions, their order, and the directory scans
-- find_file, find_newest_file, find_oldest_file, is_spool_file and current_spool_size.
use yella.Prelude.{
  ℕ, ◌+◌, ◌-◌, ◌^◌, ◌%◌, Bool, false, ◌&&◌, ◌||◌, List, [], ◌∷◌, Option, none, some, ◌==◌, ltb,
  if◌then◌else◌, length,
}
use yella.Spool.Event.{Bytes, value_of, spool_id, read_at}

-- `spool_pos`
pub record Pos : Type 0 where
  pub major_seq : ℕ
  pub minor_seq : ℕ

-- An entry of the spool directory: what `u_sscanf_u(base, "%u-%u", ...)` makes of its name, and
-- its bytes. Two entries do not scan to one position, as the names come from `spool_file_name`.
pub record Entry : Type 0 where
  pub scanned : Option Pos
  pub bytes : Bytes

abbrev pub Dir : Type 0
Dir = List Entry

unfoldable pub is_spool_file : Bytes → Bool
unfolding value_of read_at
is_spool_file b = length (read_at b 0 8) == 8 && value_of (read_at b 0 8) == spool_id

abbrev pub pos_eq : Pos → Pos → Bool
pos_eq p q = p.major_seq == q.major_seq && p.minor_seq == q.minor_seq

abbrev pub pos_ltb : Pos → Pos → Bool
pos_ltb p q =
    ltb p.major_seq q.major_seq || (p.major_seq == q.major_seq && ltb p.minor_seq q.minor_seq)

-- `cmp_newest(sp, found_pos, prev_pos)`
unfoldable pub cmp_newest : Pos → Pos → Bool
cmp_newest found prev =
    ltb prev.major_seq found.major_seq
    || (found.major_seq == prev.major_seq && ltb prev.minor_seq found.minor_seq)

-- `cmp_oldest(sp, found_pos, prev_pos)`, where `read` is `sp->read_pos`
unfoldable pub cmp_oldest : Pos → Pos → Pos → Bool
cmp_oldest read found prev =
    (ltb found.major_seq prev.major_seq
      || (found.major_seq == prev.major_seq && ltb found.minor_seq prev.minor_seq))
    && (ltb read.major_seq found.major_seq
        || (found.major_seq == read.major_seq && ltb read.minor_seq found.minor_seq))

-- The position of an entry that the scan considers: one that scans and has the spool's id.
unfoldable pub spool_pos_of : Entry → Option Pos
unfolding is_spool_file
spool_pos_of e = if is_spool_file e.bytes then e.scanned else none

abbrev pub update_candidate : (Pos → Pos → Bool) → Option Pos → Pos × Option Pos → Pos × Option Pos
update_candidate cmp none (prev, candidate) = (prev, candidate)
update_candidate cmp (some found) (prev, candidate) =
    if cmp found prev then (found, some found) else (prev, candidate)

-- The loop of `find_file` over the directory: `*pos` and the candidate so far. The entries that
-- are no spool files are only logged: `remove` is then called on UTF-16 text, which names none.
unfoldable pub find_file : (Pos → Pos → Bool) → Dir → Pos × Option Pos → Pos × Option Pos
unfolding spool_pos_of
find_file cmp [] acc = acc
find_file cmp (e ∷ es) acc = find_file cmp es (update_candidate cmp (spool_pos_of e) acc)

unfoldable pub find_newest_file : Dir → Pos × Option Pos
unfolding find_file cmp_newest
find_newest_file dir = find_file cmp_newest dir (record { major_seq = 0; minor_seq = 0 }, none)

abbrev pub uint32_max : ℕ
uint32_max = 2 ^ 32 - 1

unfoldable pub find_oldest_file : Pos → Dir → Pos × Option Pos
unfolding find_file cmp_oldest
find_oldest_file read dir =
    find_file (cmp_oldest read) dir
      (record { major_seq = uint32_max; minor_seq = uint32_max }, none)

abbrev pub pos_option_eq : Option Pos → Pos → Bool
pos_option_eq none p = false
pos_option_eq (some q) p = pos_eq q p

-- The bytes of the file at a position.
unfoldable pub contents : Dir → Pos → Option Bytes
contents [] p = none
contents (e ∷ es) p = if pos_option_eq e.scanned p then some e.bytes else contents es p

-- `fopen(name, "wb")`: an empty file, new or emptied.
unfoldable pub create_file : Dir → Pos → Dir
create_file [] p = record { scanned = some p; bytes = [] } ∷ []
create_file (e ∷ es) p =
    if pos_option_eq e.scanned p then record e { bytes = [] } ∷ es else e ∷ create_file es p

-- A change of the bytes of the file at a position; a file that was unlinked is out of reach.
unfoldable pub update_file : Dir → Pos → (Bytes → Bytes) → Dir
update_file [] p f = []
update_file (e ∷ es) p f =
    if pos_option_eq e.scanned p
    then record e { bytes = f e.bytes } ∷ es
    else e ∷ update_file es p f

-- `remove(name)`
unfoldable pub remove_file : Dir → Pos → Dir
remove_file [] p = []
remove_file (e ∷ es) p = if pos_option_eq e.scanned p then es else e ∷ remove_file es p

abbrev pub is_empty_spool : Entry → Bool
is_empty_spool e = length e.bytes == 8

-- `current_spool_size`: the spool files that hold only the id are removed, and the rest added up.
unfoldable pub remove_empty : Dir → Dir
unfolding is_spool_file
remove_empty [] = []
remove_empty (e ∷ es) =
    if is_spool_file e.bytes && is_empty_spool e then remove_empty es else e ∷ remove_empty es

unfoldable pub sum_sizes : Dir → ℕ
unfolding is_spool_file
sum_sizes [] = 0
sum_sizes (e ∷ es) =
    let rest = sum_sizes es in if is_spool_file e.bytes then length e.bytes + rest else rest

unfoldable pub current_spool_size : Dir → Dir × ℕ
unfolding remove_empty sum_sizes
current_spool_size dir = (remove_empty dir, sum_sizes (remove_empty dir) % 2 ^ 64)
