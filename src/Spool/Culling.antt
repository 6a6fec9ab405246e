-- ===== src/Spool/Culling.antt =====
-- What culling takes from the spool (agent/agent/spool.c: cull).
use yella.Prelude.{◌≡◌, refl, ap, true, false, [], ◌∷◌, some, arith, Bool-cases, inl, inr}
use yella.Spool.Files.{
  Pos, Dir, pos_eq, pos_ltb, pos_option_eq, find_oldest_file, contents, remove_file,
}
use yella.Spool.State.{Spool, Stdio, no_error, add_size, sub_size}
use yella.Spool.Write.{cull, cull_file, size_of}
use yella.Spool.Scan.{find_oldest_file_least}
use yella.Spool.Contents.{pos_option_eq_to}

-- The removal of a file leaves the bytes of every other file.
pub contents-remove_file :
    (dir : Dir) (p q : Pos) → pos_eq p q ≡ false → contents (remove_file dir p) q ≡ contents dir q
unfolding contents remove_file
contents-remove_file [] p q apart = refl
contents-remove_file (e ∷ es) p q apart = elim (Bool-cases (pos_option_eq e.scanned p)) [
  | inl there ↦
      (let at = pos_option_eq_to e.scanned p there in
        let other : pos_option_eq e.scanned q ≡ false = rw at apart in rw (there, other) refl)
  | inr elsewhere ↦ elim (Bool-cases (pos_option_eq e.scanned q)) [
    | inl here ↦ rw (elsewhere, here) refl
    | inr away ↦ rw (elsewhere, away) (contents-remove_file es p q apart)
  ]
]

later_apart : (read p : Pos) → pos_ltb read p ≡ true → pos_eq p read ≡ false
later_apart read p h = ground arith

cull_oldest :
    (io : Stdio) (s : Spool) (p : Pos)
    → (find_oldest_file s.read_pos s.dir).1 ≡ some p
    → cull io s ≡ cull_file io s (some p)
unfolding cull
cull_oldest io s p at = ap (cull_file io s) at

-- Where a spool file later than the reader's position is there to cull, and `remove` succeeds,
-- culling succeeds: it removes one such file, leaves the bytes of all others and so those of the
-- file that is being read, and the statistics move by the removed file's size.
pub cull_lem :
    (io : Stdio) (s : Spool) (p : Pos)
    → (find_oldest_file s.read_pos s.dir).1 ≡ some p
    → io.removes s.calls ≡ true
    → let (rc, s') = cull io s in
      let sz = size_of (contents s.dir p) in
      (rc ≡ no_error)
      × (s'.dir ≡ remove_file s.dir p)
      × (pos_ltb s.read_pos p ≡ true)
      × ((q : Pos) → pos_eq p q ≡ false → contents s'.dir q ≡ contents s.dir q)
      × (contents s'.dir s.read_pos ≡ contents s.dir s.read_pos)
      × (s'.stats.current_size ≡ sub_size s.stats.current_size sz)
      × (s'.stats.bytes_culled ≡ add_size s.stats.bytes_culled sz)
      × (s'.stats.files_destroyed ≡ add_size s.stats.files_destroyed 1)
      × (s'.stats.cull_events ≡ add_size s.stats.cull_events 1)
unfolding cull_file
cull_lem io s p at removed =
    let (_, later, _) = (find_oldest_file_least s.read_pos s.dir).0 p at in
    let others = contents-remove_file s.dir p in
    rw (cull_oldest io s p at, removed)
      (
        refl,
        refl,
        later,
        others,
        others s.read_pos (later_apart s.read_pos p later),
        refl,
        refl,
        refl,
        refl,
      )
