-- ===== src/Spool/Read.antt =====
-- The reading side of the spool (agent/agent/spool.c): increment_read_spool_partition,
-- advance_to_next_unvisited and spool_pop.
use yella.Prelude.{
  ℕ, zero, suc, ◌+◌, ◌-◌, Bool, true, false, List, [], ◌∷◌, Option, none, some, Ordering, ◌==◌, ltb,
  if◌then◌else◌, length, take,
}
use mathlib.Core.Option
use yella.Spool.Event.{Bytes, bytes_of, value_of, event_is_visited, event_msg_count, set_visited}
use yella.Spool.Files.{Pos, pos_eq, find_oldest_file, update_file, remove_file}
use yella.Spool.State.{
  Spool, Stdio, Reader, Rc, no_error, timed_out, read_error, logic_error, crash, starved, add_size,
  sub_size, compare_write_to_read, read_bytes, fread, seek, overwrite,
}

-- What `advance_to_next_unvisited` comes to: a message count with the stream behind it, zero, or a
-- fault.
pub data Advance : Type 0 where
  found : ℕ → Reader → Advance
  nothing : Advance
  faulted : Advance
  out_of_fuel : Advance

-- Fast forward over the parts of an event: whether every size could be read, and the stream.
unfoldable pub skip_parts : Spool → Reader → ℕ → Bool × Reader
skip_parts s r zero = (true, r)
skip_parts s r (suc n) =
    let (got, r') = fread s r 4 in
    let rest = skip_parts s (seek (r'.off + value_of got)) n in
    if ltb (length got) 4 then (false, r') else rest

-- The parts of an event: each size, then as many bytes, and where the stream comes to stand.
-- No parts if the file ends too early.
unfoldable pub read_parts : Spool → Reader → ℕ → Option (List Bytes) × Reader
read_parts s r zero = (some [], r)
read_parts s r (suc n) =
    let (size_bytes, r1) = fread s r 4 in
    let (part, r2) = fread s r1 (value_of size_bytes) in
    let (parts, r3) = read_parts s r2 n in
    if ltb (length size_bytes) 4
    then (none, r1)
    else if ltb (length part) (value_of size_bytes)
    then (none, r2)
    else (Option.map (λ ps. part ∷ ps) parts, r3)

-- `spool_pop` when no event was found: the reader has caught up, or something is wrong.
unfoldable pub caught_up : Spool → Rc
caught_up s =
    if pos_eq s.read_pos s.write_pos
    then (elim s.readf [
      | none ↦ crash
      | some r ↦ (elim s.writef [
        | none ↦ crash
        | some w ↦ if r.off == w then timed_out else logic_error
      ])
    ])
    else logic_error

module _ (io : Stdio) where
  -- `increment_read_spool_partition` once the oldest unread file is known. With none, a NULL name
  -- is converted (`none`).
  unfoldable pub open_reader : Spool → Option Pos → Option (Bool × Spool)
  open_reader s none = none
  open_reader s (some pos) = some (
      if io.opens s.calls
      then (true, record s { read_pos = pos; readf = some (seek 8); calls = s.calls + 1 })
      else (false, record s { readf = none; calls = s.calls + 1 }))

  unfoldable pub increment_read_spool_partition : Spool → Option (Bool × Spool)
  increment_read_spool_partition s = open_reader s (find_oldest_file s.read_pos s.dir).1

  -- The reader is through with its file, and the writer is in a later one.
  unfoldable pub drop_read_file : Spool → Spool
  drop_read_file s =
      if io.removes s.calls
      then record s {
        dir = remove_file s.dir s.read_pos;
        readf = none;
        calls = s.calls + 1;
        stats = record s.stats {
          current_size = sub_size s.stats.current_size (length (read_bytes s));
          files_destroyed = add_size s.stats.files_destroyed 1;
        };
      }
      else record s { readf = none; calls = s.calls + 1 }

  -- `advance_to_next_unvisited`. A lone byte at the end of the file is read again for ever.
  unfoldable pub advance : ℕ → Spool → Option Reader → Advance × Spool
  advance fuel s none = (faulted, s)
  advance zero s (some r) = (out_of_fuel, s)
  advance (suc fuel) s (some r) =
      let (got, r') = fread s r 2 in
      let header = value_of got in
      let again = advance fuel s (some (seek r.off)) in
      let next_file : Advance × Spool = elim (increment_read_spool_partition (drop_read_file s)) [
        | none ↦ (faulted, drop_read_file s)
        | some (opened, s') ↦
            (let rest = advance fuel s' s'.readf in if opened then rest else (nothing, s'))
      ] in
      let (whole, r'') = skip_parts s r' (event_msg_count header) in
      let onward = advance fuel s (some r'') in
      if length got == 0
      then (elim (compare_write_to_read (record s { readf = some r' })) [
        | none ↦ (faulted, s)
        | some Ordering.gt ↦ next_file
        | some _ ↦ (nothing, record s { readf = some r' })
      ])
      else if ltb (length got) 2
      then again
      else if event_is_visited header
      then (if whole then onward else (nothing, record s { readf = some r'' }))
      else (found (event_msg_count header) r', record s { readf = some r' })

  -- The event is marked as visited in the file, and the stream goes back to its end.
  unfoldable pub mark_visited : Spool → ℕ → ℕ → ℕ → Spool
  mark_visited s msg_off count cur_off =
      let header = bytes_of 2 (set_visited count) in
      let n = io.writes s.calls 2 in
      record s {
        dir = update_file s.dir s.read_pos (overwrite msg_off (take n header));
        readf = some (seek cur_off);
        calls = s.calls + 1;
      }

  -- `spool_pop` once an event is found: the parts, or a read error.
  unfoldable pub take_event : Spool → ℕ → Reader → Rc × List Bytes × Spool
  take_event s count r =
      let (parts, r') = read_parts s r count in
      let marked = mark_visited s (r.off - 2) count r'.off in
      elim parts [
        | none ↦ (read_error, [], record s { readf = some r' })
        | some ps ↦ (
          no_error,
          ps,
          record marked {
            stats = record marked.stats { events_read = add_size marked.stats.events_read 1 };
          },
        )
      ]

  unfoldable pub pop_found : Advance × Spool → Rc × List Bytes × Spool
  pop_found (found zero r, s) = (caught_up s, [], s)
  pop_found (found (suc n) r, s) = take_event s (suc n) r
  pop_found (nothing, s) = (caught_up s, [], s)
  pop_found (faulted, s) = (crash, [], s)
  pop_found (out_of_fuel, s) = (starved, [], s)

  -- `spool_pop` with the guard held and something to compare.
  unfoldable pub pop_ready : ℕ → Spool → Rc × List Bytes × Spool
  pop_ready fuel s = elim (compare_write_to_read s) [
    | none ↦ (crash, [], s)
    | some Ordering.gt ↦ pop_found (advance fuel s s.readf)
    | some _ ↦ (timed_out, [], s)
  ]

  -- `spool_pop`. While it waits the guard is free: `wait` says whether the wait was signalled, and
  -- what others made of the spool meanwhile.
  unfoldable pub spool_pop : ℕ → (Spool → Bool × Spool) → Spool → Rc × List Bytes × Spool
  spool_pop fuel wait s =
      let (signalled, s') = wait s in
      elim (compare_write_to_read s) [
        | none ↦ (crash, [], s)
        | some Ordering.gt ↦ pop_ready fuel s
        | some _ ↦ if signalled then pop_ready fuel s' else (timed_out, [], s')
      ]
