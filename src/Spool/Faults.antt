-- ===== src/Spool/Faults.antt =====
-- The error paths of the spool (agent/agent/spool.c: spool_push, spool_pop).
use yella.Prelude.{
  ℕ, suc, ◌≤◌, ◌<◌, ◌^◌, ◌%◌, ◌≢◌, ◌≡◌, refl, ap, ◌∙◌, Bool, true, false, List, [], ◌∷◌, none, some,
  Ordering, arith, length, take, Bool-cases, inl, inr,
}
use yella.Spool.Event.{Bytes, bytes_of, part_size}
use yella.Spool.Files.{find_oldest_file, remove_file}
use yella.Spool.State.{
  Spool, Stdio, Reader, write_error, file_system_error, crash, compare_write_to_read, fread, fwrite,
  increment_write_spool_partition,
}
use yella.Spool.Write.{
  write_piece, write_parts, finish_push, write_event, spool_push, cull, cull_file,
}
use yella.Spool.Pop.{spool_pop-ahead}
use yella.Spool.Read.{
  faulted, increment_read_spool_partition, open_reader, drop_read_file, advance, pop_found,
  spool_pop,
}

-- `t` counts the events that `s` counts, with the same sizes.
abbrev pub SameCounts : Spool → Spool → Type 0
SameCounts t s =
    (t.stats.events_written ≡ s.stats.events_written)
    × (t.stats.largest_event_size ≡ s.stats.largest_event_size)
    × (t.stats.smallest_event_size ≡ s.stats.smallest_event_size)
    × (t.stats.largest_size ≡ s.stats.largest_size)
    × (t.stats.cull_events ≡ s.stats.cull_events)
    × (t.total_event_bytes_written ≡ s.total_event_bytes_written)

SameCounts-trans : (a b c : Spool) → SameCounts a b → SameCounts b c → SameCounts a c
SameCounts-trans a b c h k = omega arith

fread-at_end : (s : Spool) (r : Reader) (n : ℕ) → r.eof ≡ true → fread s r n ≡ ([], r)
unfolding fread
fread-at_end s r n h = ground arith

compare_beyond :
    (s : Spool) (w : ℕ) (r : Reader)
    → s.read_pos ≡ s.write_pos
    → s.writef ≡ some w
    → s.readf ≡ some r
    → r.off < w
    → w < 2 ^ 31
    → compare_write_to_read s ≡ some Ordering.gt
unfolding compare_write_to_read
compare_beyond s w r same at_w at_r less small = rw (same, at_w, at_r) (ground arith)

module _ (io : Stdio) where
  write_piece-SameCounts :
      (s : Spool) (e : ℕ) (piece : Bytes) → SameCounts (write_piece io s e piece).2 s
  unfolding write_piece fwrite
  write_piece-SameCounts s e piece = ground arith

  write_parts-SameCounts :
      (s : Spool) (e : ℕ) (ds : List Bytes) → SameCounts (write_parts io s e ds).2 s
  unfolding write_parts
  write_parts-SameCounts s e [] = (refl, refl, refl, refl, refl, refl)
  write_parts-SameCounts s e (d ∷ ds) =
      let p1 = bytes_of 4 (part_size d) in
      let p2 = take (part_size d) d in
      let o1 = write_piece io s e p1 in
      let o2 = write_piece io o1.2 o1.1 p2 in
      let h1 = write_piece-SameCounts s e p1 in
      let h2 = SameCounts-trans o2.2 o1.2 s (write_piece-SameCounts o1.2 o1.1 p2) h1 in
      let h3 =
        SameCounts-trans (write_parts io o2.2 o2.1 ds).2 o2.2 s
          (write_parts-SameCounts o2.2 o2.1 ds) h2 in
      elim (Bool-cases o1.0) [
        | inr short ↦ rw short h1
        | inl full ↦ elim (Bool-cases o2.0) [
          | inr short ↦ rw (full, short) h2
          | inl full' ↦ rw (full, full') h3
        ]
      ]

  increment_write-fails :
      (s : Spool)
      → io.opens s.calls ≡ false
      → ((increment_write_spool_partition io s).0 ≡ false)
        × ((increment_write_spool_partition io s).1.writef ≡ none)
  unfolding increment_write_spool_partition
  increment_write-fails s fails = rw fails (refl, refl)

  spool_push-full :
      (s : Spool) (off : ℕ) (msgs : List Bytes)
      → s.writef ≡ some off
      → s.stats.max_partition_size ≤ off
      → (increment_write_spool_partition io s).0 ≡ false
      → spool_push io s msgs ≡ (file_system_error, (increment_write_spool_partition io s).1)
  unfolding spool_push
  spool_push-full s off msgs at full fails = ground arith

  spool_push-closed :
      (s : Spool) (msgs : List Bytes) → s.writef ≡ none → (spool_push io s msgs).0 ≡ crash
  unfolding spool_push
  spool_push-closed s msgs closed = rw (closed, spool_push)

  -- When a partition is full and the next file cannot be opened, the push returns the file-system
  -- error, and whatever is pushed next runs into the NULL stream.
  pub push_after_failed_partition :
      (s : Spool) (off : ℕ) (msgs msgs' : List Bytes)
      → s.writef ≡ some off
      → s.stats.max_partition_size ≤ off
      → io.opens s.calls ≡ false
      → let (rc, s') = spool_push io s msgs in
        (rc ≡ file_system_error) × ((spool_push io s' msgs').0 ≡ crash)
  push_after_failed_partition s off msgs msgs' at full fails =
      let (failed, closed) = increment_write-fails s fails in
      rw (spool_push-full s off msgs at full failed)
        (refl, spool_push-closed (increment_write_spool_partition io s).1 msgs' closed)

  finish_push-ne-write_error : (s : Spool) (e : ℕ) → (finish_push io s e).0 ≢ write_error
  unfolding finish_push cull cull_file
  finish_push-ne-write_error s e = ground arith

  write_event-SameCounts :
      (s : Spool) (msgs : List Bytes)
      → (write_event io s msgs).0 ≡ write_error
      → SameCounts (write_event io s msgs).1 s
  unfolding write_event
  write_event-SameCounts s msgs h =
      let num = length msgs % 2 ^ 16 in
      let o1 = write_piece io s 0 (bytes_of 2 num) in
      let o2 = write_parts io o1.2 o1.1 msgs in
      let h1 = write_piece-SameCounts s 0 (bytes_of 2 num) in
      let h2 = SameCounts-trans o2.2 o1.2 s (write_parts-SameCounts o1.2 o1.1 msgs) h1 in
      ground (arith, h1, h2, finish_push-ne-write_error o2.2 o2.1)

  increment_write-SameCounts : (s : Spool) → SameCounts (increment_write_spool_partition io s).1 s
  unfolding increment_write_spool_partition fwrite
  increment_write-SameCounts s = ground arith

  -- A push that returns the write error, whichever of its writes came short and whether or not it
  -- opened a new file, has counted no event and no event's size.
  pub push_error_uncounted :
      (s : Spool) (msgs : List Bytes)
      → (spool_push io s msgs).0 ≡ write_error
      → SameCounts (spool_push io s msgs).1 s
  unfolding spool_push
  push_error_uncounted s msgs h =
      let s1 = (increment_write_spool_partition io s).1 in
      ground (
        arith,
        write_event-SameCounts s msgs,
        write_event-SameCounts s1 msgs,
        increment_write-SameCounts s,
      )

  pop_found-faulted : (s : Spool) → pop_found io (faulted, s) ≡ (crash, [], s)
  unfolding pop_found
  pop_found-faulted s = refl

  dropped_dir :
      (s : Spool)
      → io.removes s.calls ≡ true
      → (drop_read_file io s).dir ≡ remove_file s.dir s.read_pos
  unfolding drop_read_file
  dropped_dir s removed = rw removed

  nowhere_to_go :
      (s : Spool)
      → io.removes s.calls ≡ true
      → (find_oldest_file s.read_pos (remove_file s.dir s.read_pos)).1 ≡ none
      → increment_read_spool_partition io (drop_read_file io s) ≡ none
  unfolding increment_read_spool_partition drop_read_file open_reader
  nowhere_to_go s removed none_left = rw removed (rw (none_left, open_reader))

  advance-lost :
      (fuel : ℕ) (s : Spool) (r : Reader)
      → r.eof ≡ true
      → compare_write_to_read (record s { readf = some r }) ≡ some Ordering.gt
      → io.removes s.calls ≡ true
      → (find_oldest_file s.read_pos (remove_file s.dir s.read_pos)).1 ≡ none
      → advance io (suc fuel) s (some r) ≡ (faulted, drop_read_file io s)
  unfolding advance
  advance-lost fuel s r at_end ahead removed none_left =
      let nothing_read : fread s r 2 ≡ ([], r) = fread-at_end s r 2 at_end in
      rw (nothing_read, ahead, nowhere_to_go s removed none_left, advance) refl

  -- The reader's stream has its end-of-file mark set, as after a pop that caught up, the writer
  -- has gone on in the same file, and no later file is there. Then the next pop removes that file,
  -- with the events that the writer put in it, and runs into a NULL name.
  pub pop_after_eof :
      (fuel off w : ℕ) (wait : Spool → Bool × Spool) (s : Spool)
      → s.read_pos ≡ s.write_pos
      → s.readf ≡ some (record { off = off; eof = true })
      → s.writef ≡ some w
      → off < w
      → w < 2 ^ 31
      → io.removes s.calls ≡ true
      → (find_oldest_file s.read_pos (remove_file s.dir s.read_pos)).1 ≡ none
      → let (rc, _, s') = spool_pop io (suc fuel) wait s in
        (rc ≡ crash) × (s'.dir ≡ remove_file s.dir s.read_pos)
  pop_after_eof fuel off w wait s same at_r at_w less small removed none_left =
      let r : Reader = record { off = off; eof = true } in
      let ahead = compare_beyond s w r same at_w at_r less small in
      let lost = advance-lost fuel s r refl (rw (← at_r) ahead) removed none_left in
      let result : spool_pop io (suc fuel) wait s ≡ (crash, [], drop_read_file io s) =
        spool_pop-ahead io (suc fuel) wait s ahead
        ∙ ap (λ o. pop_found io (advance io (suc fuel) s o)) at_r
        ∙ ap (pop_found io) lost
        ∙ pop_found-faulted (drop_read_file io s) in
      rw result (refl, dropped_dir s removed)
