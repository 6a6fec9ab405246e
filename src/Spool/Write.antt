-- ===== src/Spool/Write.antt =====
-- spool_push and cull (agent/agent/spool.c).
use yella.Prelude.{
  ℕ, ◌+◌, ◌*◌, ◌^◌, ◌%◌, max, min, Bool, true, false, not, List, [], ◌∷◌, Option, none, some, ◌==◌,
  ltb, leb, if◌then◌else◌, length, take,
}
use yella.Spool.Event.{Bytes, bytes_of, max_msg_count, part_size}
use yella.Spool.Files.{Pos, find_oldest_file, contents, remove_file}
use yella.Spool.State.{
  Spool, Stats, Stdio, Rc, no_error, write_error, file_system_error, crash, add_size, sub_size,
  fwrite, increment_write_spool_partition,
}

abbrev pub size_of : Option Bytes → ℕ
size_of none = 0
size_of (some b) = length b

-- `sp->stats.current_size += num_written`
abbrev pub grown : ℕ → Stats → Stats
grown n st = record st { current_size = add_size st.current_size n }

-- The statistics of an event that was written in full.
abbrev pub counted : Spool → ℕ → Spool
counted s event_size = record s {
  calls = s.calls + 1;
  total_event_bytes_written = add_size s.total_event_bytes_written event_size;
  stats = record s.stats {
    events_written = add_size s.stats.events_written 1;
    largest_size = max s.stats.largest_size s.stats.current_size;
    largest_event_size = max s.stats.largest_event_size event_size;
    smallest_event_size = min s.stats.smallest_event_size event_size;
  };
}

module _ (io : Stdio) where
  -- `cull` once the oldest unread file is known; with none, a NULL name is converted.
  unfoldable pub cull_file : Spool → Option Pos → Rc × Spool
  cull_file s none = (crash, s)
  cull_file s (some oldest) =
      let sz = size_of (contents s.dir oldest) in
      if io.removes s.calls
      then (
        no_error,
        record s {
          dir = remove_file s.dir oldest;
          calls = s.calls + 1;
          stats = record s.stats {
            current_size = sub_size s.stats.current_size sz;
            bytes_culled = add_size s.stats.bytes_culled sz;
            files_destroyed = add_size s.stats.files_destroyed 1;
            cull_events = add_size s.stats.cull_events 1;
          };
        },
      )
      else (no_error, record s { calls = s.calls + 1 })

  unfoldable pub cull : Spool → Rc × Spool
  cull s = cull_file s (find_oldest_file s.read_pos s.dir).1

  -- One `fwrite` of `spool_push` with its bookkeeping: whether it wrote everything, the size of the
  -- event so far, and the spool. A short write leaves the statistics as they were.
  unfoldable pub write_piece : Spool → ℕ → Bytes → Bool × ℕ × Spool
  write_piece s event_size piece =
      let (n, written) = fwrite io s piece in
      if n == length piece
      then (true, add_size event_size n, record written { stats = grown n written.stats })
      else (false, event_size, written)

  -- The loop over the message parts.
  unfoldable pub write_parts : Spool → ℕ → List Bytes → Bool × ℕ × Spool
  write_parts s event_size [] = (true, event_size, s)
  write_parts s event_size (d ∷ ds) =
      let (sized, e1, s1) = write_piece s event_size (bytes_of 4 (part_size d)) in
      let (stored, e2, s2) = write_piece s1 e1 (take (part_size d) d) in
      let rest = write_parts s2 e2 ds in
      if not sized then (false, e1, s1) else if not stored then (false, e2, s2) else rest

  -- What `spool_push` does once the event is in the file: the statistics, and the culling.
  unfoldable pub finish_push : Spool → ℕ → Rc × Spool
  finish_push s event_size =
      if leb (s.stats.max_partitions * s.stats.max_partition_size % 2 ^ 64) s.stats.current_size
      then cull (counted s event_size)
      else (no_error, counted s event_size)

  -- The body of `spool_push` behind the choice of the partition.
  unfoldable pub write_event : Spool → List Bytes → Rc × Spool
  write_event s msgs =
      let num = length msgs % 2 ^ 16 in
      let (started, e1, s1) = write_piece s 0 (bytes_of 2 num) in
      let (done, e2, s2) = write_parts s1 e1 msgs in
      if ltb max_msg_count num
      then (crash, s)
      else if not started
      then (write_error, s1)
      else if not done
      then (write_error, s2)
      else finish_push s2 e2

  -- `spool_push`. `none` for the stream is `ftell(NULL)`.
  unfoldable pub spool_push : Spool → List Bytes → Rc × Spool
  spool_push s msgs = elim s.writef [
    | none ↦ (crash, s)
    | some off ↦
        (let (opened, s1) = increment_write_spool_partition io s in
          if leb s.stats.max_partition_size off
          then (if opened then write_event s1 msgs else (file_system_error, s1))
          else write_event s msgs)
  ]
