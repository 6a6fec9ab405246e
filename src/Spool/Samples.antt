-- ===== src/Spool/Samples.antt =====
-- A file system, files and spools for the tests.
use yella.Prelude.{ℕ, arith, refl, true, false, List, [], ◌∷◌, ◌++◌, some}
use yella.Spool.Event.{Bytes, bytes_of, part_size, encode_event, encode_parts, encode_part}
use yella.Spool.Files.{Pos, Entry, Dir, contents}
use yella.Spool.State.{Spool, Stats, Stdio, seek}
use yella.Spool.Push.{IsHealthy}
use yella.Spool.Fifo.{Holds}

abbrev pub sound : Stdio
sound = record { opens = λ c. true; writes = λ c n. n; flushes = λ c. true; removes = λ c. true }

-- A full disk, and one where no file opens.
abbrev pub full_disk : Stdio
full_disk = record sound { writes = λ c n. 0 }

abbrev pub no_opens : Stdio
no_opens = record sound { opens = λ c. false }

pub sound-IsHealthy : IsHealthy sound
sound-IsHealthy = record {
  opens = λ c. refl;
  writes = λ c n. refl;
  flushes = λ c. refl;
  removes = λ c. refl;
}

abbrev pub at : ℕ → ℕ → Pos
at a b = record { major_seq = a; minor_seq = b }

abbrev pub file : ℕ → ℕ → Bytes → Entry
file a b data_bytes = record { scanned = some (at a b); bytes = data_bytes }

abbrev pub id_bytes : Bytes
id_bytes = 1 ∷ 144 ∷ 165 ∷ 17 ∷ 147 ∷ 0 ∷ 0 ∷ 0 ∷ []

abbrev pub one_event : Bytes
one_event = 1 ∷ 0 ∷ 2 ∷ 0 ∷ 0 ∷ 0 ∷ 7 ∷ 8 ∷ []

abbrev pub two_parts : List Bytes
two_parts = (7 ∷ 8 ∷ []) ∷ []

abbrev pub no_stats : Stats
no_stats = record {
  max_partition_size = 100;
  max_partitions = 4;
  current_size = 16;
  largest_size = 0;
  files_created = 1;
  files_destroyed = 0;
  bytes_culled = 0;
  events_read = 0;
  events_written = 1;
  smallest_event_size = 8;
  largest_event_size = 8;
  average_event_size = 0;
  cull_events = 0;
}

-- One file with one event, at which the reader stands.
abbrev pub one : Spool
one = record {
  dir = file 1 1 (id_bytes ++ one_event) ∷ [];
  write_pos = at 1 1;
  writef = some 16;
  read_pos = at 1 1;
  readf = some (seek 8);
  stats = no_stats;
  total_event_bytes_written = 8;
  calls = 4;
}

-- Two files, of which the reader is in the first, and one that is no spool file.
abbrev pub two_files : Dir
two_files =
    file 3 1 (id_bytes ++ one_event)
    ∷ file 5 5 (0 ∷ [])
    ∷ file 2 1 (id_bytes ++ one_event)
    ∷ file 2 2 id_bytes
    ∷ []

abbrev pub behind : Spool
behind = record one { dir = two_files; write_pos = at 3 1; read_pos = at 2 1 }

pub one-Holds : Holds one (two_parts ∷ []) 8
unfolding encode_event encode_parts encode_part bytes_of part_size contents
one-Holds = record {
  same_file = refl;
  off = 8;
  file = id_bytes ++ one_event;
  readf = refl;
  writef = refl;
  stored = refl;
  queue = refl;
  within = omega arith;
  messages = (((omega arith, (omega arith, tt)), omega arith), tt);
  partition = omega arith;
  offsets = omega arith;
  total = omega arith;
  bounded = omega arith;
}

-- A message of two parts, a new spool, and one with that message.
abbrev pub pair : List Bytes
pair = (7 ∷ 8 ∷ []) ∷ (9 ∷ []) ∷ []

abbrev pair_event : Bytes
pair_event = 2 ∷ 0 ∷ 2 ∷ 0 ∷ 0 ∷ 0 ∷ 7 ∷ 8 ∷ 1 ∷ 0 ∷ 0 ∷ 0 ∷ 9 ∷ []

abbrev pub idle : Spool
idle = record one {
  dir = file 1 1 id_bytes ∷ [];
  writef = some 8;
  stats = record no_stats { current_size = 8 };
}

abbrev pub loaded : Spool
loaded = record one {
  dir = file 1 1 (id_bytes ++ pair_event) ∷ [];
  writef = some 21;
  stats = record no_stats { current_size = 21 };
}

pub idle-Holds : Holds idle [] 90
unfolding contents
idle-Holds = record {
  same_file = refl;
  off = 8;
  file = id_bytes;
  readf = refl;
  writef = refl;
  stored = refl;
  queue = refl;
  within = omega arith;
  messages = tt;
  partition = omega arith;
  offsets = omega arith;
  total = omega arith;
  bounded = omega arith;
}

pub loaded-Holds : Holds loaded (pair ∷ []) 8
unfolding encode_event encode_parts encode_part bytes_of part_size contents
loaded-Holds = record {
  same_file = refl;
  off = 8;
  file = id_bytes ++ pair_event;
  readf = refl;
  writef = refl;
  stored = refl;
  queue = refl;
  within = omega arith;
  messages = (((omega arith, (omega arith, (omega arith, tt))), omega arith), tt);
  partition = omega arith;
  offsets = omega arith;
  total = omega arith;
  bounded = omega arith;
}
