-- ===== src/Spool/Contents.antt =====
-- What the changes of the spool directory do to the bytes of its files (agent/agent/spool.c).
use mathlib.Core.Option
use yella.Prelude.{◌≡◌, true, [], ◌∷◌, Option, none, some, arith, if◌then◌else◌}
use yella.Spool.Event.{Bytes}
use yella.Spool.Files.{Pos, Dir, pos_eq, pos_option_eq, contents, create_file, update_file}

pub pos_eq_to : (p q : Pos) → pos_eq p q ≡ true → p ≡ q
pos_eq_to p q h = ground arith

pub pos_eq_refl : (p : Pos) → pos_eq p p ≡ true
pos_eq_refl p = ground arith

pub pos_option_eq_to : (o : Option Pos) (p : Pos) → pos_option_eq o p ≡ true → o ≡ some p
pos_option_eq_to none p h = cc
pos_option_eq_to (some q) p h = let e : q ≡ p = pos_eq_to q p h in rw e

-- A change of one file, seen through `contents`.
pub contents-update_file :
    (dir : Dir) (p q : Pos) (f : Bytes → Bytes)
    → contents (update_file dir p f) q
      ≡ (if pos_eq p q then Option.map f (contents dir q) else contents dir q)
unfolding contents update_file
contents-update_file [] p q f = ground arith
contents-update_file (e ∷ es) p q f = ground (arith, contents-update_file es p q f)

pub contents-create_file :
    (dir : Dir) (p q : Pos)
    → contents (create_file dir p) q ≡ (if pos_eq p q then some [] else contents dir q)
unfolding contents create_file
contents-create_file [] p q = ground arith
contents-create_file (e ∷ es) p q = ground (arith, contents-create_file es p q)
