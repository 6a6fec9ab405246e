-- ===== src/Spool/Life.antt =====
-- create_spool, destroy_spool, spool_empty_of_messages and spool_get_stats (agent/agent/spool.c).
use yella.Prelude.{ℕ, ◌-◌, ◌/◌, ◌^◌, Bool, Option, none, some, ◌==◌, if◌then◌else◌}
use yella.Spool.Files.{Pos, Dir, find_newest_file, remove_file, current_spool_size}
use yella.Spool.State.{Spool, Stats, Stdio, add32, increment_write_spool_partition}
use yella.Spool.Read.{increment_read_spool_partition}

abbrev pub zero_pos : Pos
zero_pos = record { major_seq = 0; minor_seq = 0 }

-- The major sequence of a new writer: 1 in an empty directory, else one more than the newest.
unfoldable pub next_major : Pos × Option Pos → ℕ
next_major (pos, none) = 1
next_major (pos, some newest) = add32 pos.major_seq 1

-- The spool as `calloc` and the settings leave it, before a stream is open.
unfoldable pub blank_spool : ℕ → ℕ → Dir → Spool
blank_spool max_partition_size max_partitions dir = record {
  dir = (current_spool_size dir).0;
  write_pos = zero_pos;
  writef = none;
  read_pos = zero_pos;
  readf = none;
  stats = record {
    max_partition_size = max_partition_size;
    max_partitions = max_partitions;
    current_size = (current_spool_size dir).1;
    largest_size = 0;
    files_created = 0;
    files_destroyed = 0;
    bytes_culled = 0;
    events_read = 0;
    events_written = 0;
    smallest_event_size = 2 ^ 64 - 1;
    largest_event_size = 0;
    average_event_size = 0;
    cull_events = 0;
  };
  total_event_bytes_written = 0;
  calls = 0;
}

module _ (io : Stdio) where
  unfoldable pub init_writer : Spool → Bool × Spool
  init_writer s = increment_write_spool_partition io (record s {
    write_pos = record { major_seq = next_major (find_newest_file s.dir); minor_seq = 0 };
    writef = none;
  })

  -- `none` is the fault of a directory with nothing to read.
  unfoldable pub init_reader : Spool → Option (Bool × Spool)
  init_reader s = increment_read_spool_partition io (record s { readf = none; read_pos = zero_pos })

  -- `create_spool`, the directory being there: NULL is `some none`, a fault `none`.
  unfoldable pub create_spool : ℕ → ℕ → Dir → Option (Option Spool)
  create_spool max_partition_size max_partitions dir =
      let (written, s) = init_writer (blank_spool max_partition_size max_partitions dir) in
      if written
      then (elim (init_reader s) [
        | none ↦ none
        | some (opened, s') ↦ some (if opened then some s' else none)
      ])
      else some none

  -- What `destroy_spool` leaves on the disk: a writer's file with nothing but the id is removed.
  unfoldable pub destroy_spool : Spool → Option Dir
  destroy_spool s = elim s.writef [
    | none ↦ none
    | some woff ↦ some (
        if woff == 8
        then (if io.removes s.calls then remove_file s.dir s.write_pos else s.dir)
        else s.dir)
  ]

unfoldable pub spool_empty_of_messages : Spool → Bool
spool_empty_of_messages s = s.stats.current_size == 8

unfoldable pub spool_get_stats : Spool → Stats × Spool
spool_get_stats s =
    let average =
      if s.stats.events_written == 0
      then 0
      else s.total_event_bytes_written / s.stats.events_written in
    let stats = record s.stats { average_event_size = average } in
    (stats, record s { stats = stats })
