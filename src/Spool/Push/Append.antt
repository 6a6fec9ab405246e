-- ===== src/Spool/Push/Append.antt =====
-- What is appended to the writer's file (agent/agent/spool.c).
use mathlib.Core.Option
use yella.Prelude.{
  ℕ, ◌+◌, ◌≡◌, refl, ap, ◌∙◌, Bool, true, false, ◌++◌, Option, none, some, arith, if◌then◌else◌,
  length, append_assoc, length-append,
}
use yella.Spool.Event.{Bytes}
use yella.Spool.Files.{Pos, pos_eq, contents, update_file}
use yella.Spool.State.{Spool, Stdio, moved}
use yella.Spool.Write.{grown}
use yella.Spool.Contents.{contents-update_file}

-- A file system on which no call fails.
pub record IsHealthy (io : Stdio) : Type 0 where
  pub opens : (c : ℕ) → io.opens c ≡ true
  pub writes : (c n : ℕ) → io.writes c n ≡ n
  pub flushes : (c : ℕ) → io.flushes c ≡ true
  pub removes : (c : ℕ) → io.removes c ≡ true

-- From `s` to `s'`, `new` was appended to the writer's file and counted, and nothing else changed.
pub record Appended (s s' : Spool) (new : Bytes) : Type 0 where
  pub write_pos : s'.write_pos ≡ s.write_pos
  pub read_pos : s'.read_pos ≡ s.read_pos
  pub readf : s'.readf ≡ s.readf
  pub writef : s'.writef ≡ moved s.writef (length new)
  pub total : s'.total_event_bytes_written ≡ s.total_event_bytes_written
  pub stats : s'.stats ≡ grown (length new) s.stats
  pub files :
      (q : Pos)
      → contents s'.dir q ≡ (
          if pos_eq s.write_pos q
          then Option.map (λ b. b ++ new) (contents s.dir q)
          else contents s.dir q)

pub Appended-trans :
    (s t u : Spool) (a b : Bytes) → Appended s t a → Appended t u b → Appended s u (a ++ b)
Appended-trans s t u a b h k = record {
  write_pos = k.write_pos ∙ h.write_pos;
  read_pos = k.read_pos ∙ h.read_pos;
  readf = k.readf ∙ h.readf;
  writef = k.writef ∙ ap (λ w. moved w (length b)) h.writef ∙ moved_twice s.writef;
  total = k.total ∙ h.total;
  stats =
      k.stats
      ∙ ap (grown (length b)) h.stats
      ∙ ap (λ (n : ℕ). record s.stats { current_size = n }) (omega (arith, length-append a b));
  files = λ q.
      k.files q ∙ rw (h.write_pos, h.files q) (regroup (pos_eq s.write_pos q) (contents s.dir q));
}
  where
    moved_twice : (w : Option ℕ) → moved (moved w (length a)) (length b) ≡ moved w (length (a ++ b))
    moved_twice none = refl
    moved_twice (some w) = ap some (omega (arith, length-append a b))

    regroup :
        (hit : Bool) (o : Option Bytes)
        → (if hit
            then Option.map (λ c. c ++ b) (if hit then Option.map (λ c. c ++ a) o else o)
            else if hit
            then Option.map (λ c. c ++ a) o
            else o)
          ≡ (if hit then Option.map (λ c. c ++ (a ++ b)) o else o)
    regroup false o = refl
    regroup true none = refl
    regroup true (some c) = ap some (append_assoc c a b)

abbrev pub with_piece : Spool → Bytes → Spool
with_piece s piece = record s {
  dir = update_file s.dir s.write_pos (λ b. b ++ piece);
  writef = moved s.writef (length piece);
  calls = s.calls + 1;
  stats = grown (length piece) s.stats;
}

pub with_piece-Appended : (s : Spool) (piece : Bytes) → Appended s (with_piece s piece) piece
with_piece-Appended s piece = record {
  write_pos = refl;
  read_pos = refl;
  readf = refl;
  writef = refl;
  total = refl;
  stats = refl;
  files = λ q. contents-update_file s.dir s.write_pos q (λ b. b ++ piece);
}
