-- ===== src/Spool/Fresh.antt =====
-- A spool that create_spool makes (agent/agent/spool.c: create_spool to spool_push and spool_pop).
use yella.Prelude.{ℕ, ◌+◌, ◌*◌, ◌^◌, ◌<◌, ◌≡◌, refl, true, List, [], ◌∷◌, some, arith}
use yella.Spool.Event.{bytes_of, spool_id, value_of, read_at}
use yella.Spool.Files.{
  Pos, find_newest_file, find_oldest_file, find_file, cmp_oldest, spool_pos_of, is_spool_file,
  contents, create_file, update_file, current_spool_size, remove_empty, sum_sizes,
}
use yella.Spool.State.{Spool, Stdio, fwrite, seek, increment_write_spool_partition}
use yella.Spool.Read.{increment_read_spool_partition, open_reader}
use yella.Spool.Life.{next_major, blank_spool, init_writer, init_reader, create_spool}
use yella.Spool.Push.{IsHealthy}
use yella.Spool.Fifo.{Op, run, run_queue, cost, PushesMessages, Holds, run_refines}

-- The spool of an empty directory, once its writer is there: one file, which holds the id.
abbrev written : ℕ → ℕ → Spool
written mps mp =
    let pos : Pos = record { major_seq = 1; minor_seq = 1 } in
    record (blank_spool mps mp []) {
      dir = record { scanned = some pos; bytes = bytes_of 8 spool_id } ∷ [];
      write_pos = pos;
      writef = some 8;
      calls = 3;
      stats = record (blank_spool mps mp []).stats { current_size = 8; files_created = 1 };
    }

-- And once its reader is there too.
abbrev fresh : ℕ → ℕ → Spool
fresh mps mp = record (written mps mp) {
  read_pos = record { major_seq = 1; minor_seq = 1 };
  readf = some (seek 8);
  calls = 4;
}

module _ (io : Stdio) (healthy : IsHealthy io) where
  init_writer-fresh : (mps mp : ℕ) → init_writer io (blank_spool mps mp []) ≡ (true, written mps mp)
  unfolding init_writer increment_write_spool_partition fwrite blank_spool next_major
      find_newest_file find_file create_file update_file current_spool_size remove_empty sum_sizes
      bytes_of
  init_writer-fresh mps mp = rw (healthy.opens, healthy.writes, healthy.flushes) refl

  init_reader-fresh : (mps mp : ℕ) → init_reader io (written mps mp) ≡ some (true, fresh mps mp)
  unfolding init_reader increment_read_spool_partition open_reader blank_spool find_oldest_file
      find_file cmp_oldest spool_pos_of is_spool_file bytes_of value_of read_at
  init_reader-fresh mps mp = rw (healthy.opens) refl

  create_spool-fresh : (mps mp : ℕ) → create_spool io mps mp [] ≡ some (some (fresh mps mp))
  unfolding create_spool
  create_spool-fresh mps mp = rw (init_writer-fresh mps mp) (rw (init_reader-fresh mps mp) refl)

fresh-Holds :
    (mps mp room : ℕ)
    → 8 + room < mps
    → 8 + room < 2 ^ 31
    → 8 + room < mp * mps
    → mp * mps < 2 ^ 64
    → Holds (fresh mps mp) [] room
unfolding blank_spool contents bytes_of
fresh-Holds mps mp room a b c d = record {
  same_file = refl;
  off = 8;
  file = bytes_of 8 spool_id;
  readf = refl;
  writef = refl;
  stored = refl;
  queue = refl;
  within = omega arith;
  messages = tt;
  partition = a;
  offsets = b;
  total = c;
  bounded = d;
}

-- From an empty directory on, on a file system where no call fails, `create_spool` makes a spool,
-- and a sequence of pushes of messages and of pops whose waits end by themselves returns what it
-- returns on an empty first-in first-out queue, if the file's id and the events' bytes fit the
-- partition, the spool's limit and the 31 bits of an offset difference.
pub create_spool_refines :
    (io : Stdio) (mps mp : ℕ) (ops : List Op)
    → IsHealthy io
    → PushesMessages ops
    → 8 + cost ops < mps
    → 8 + cost ops < 2 ^ 31
    → 8 + cost ops < mp * mps
    → mp * mps < 2 ^ 64
    → (s : Spool) × (create_spool io mps mp [] ≡ some (some s)) × (run io s ops ≡ run_queue [] ops)
create_spool_refines io mps mp ops healthy m a b c d = (
  fresh mps mp,
  create_spool-fresh io healthy mps mp,
  run_refines io healthy ops (fresh mps mp) [] (fresh-Holds mps mp (cost ops) a b c d) m,
)
