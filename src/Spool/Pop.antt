-- ===== src/Spool/Pop.antt =====
-- What spool_pop returns, and the mark that it leaves in the file (agent/agent/spool.c).
use yella.Prelude.{
  ℕ, zero, suc, ◌+◌, ◌-◌, ◌%◌, ◌^◌, ◌<◌, ◌≡◌, refl, sym, ap, ◌∙◌, Bool, false, List, ◌++◌, some,
  Ordering, arith, length, take, drop, append_assoc, length-append, length-drop, length-take,
  take-append, drop-append, All,
}
use yella.Spool.Event.{
  Bytes, bytes_of, set_visited, Fits, encode_parts, encode_event, length-bytes_of, take-all,
}
use yella.Spool.Files.{Pos, pos_eq, contents, update_file}
use yella.Spool.State.{
  Spool, Stdio, no_error, Reader, add_size, compare_write_to_read, read_bytes, seek, overwrite,
}
use yella.Spool.Read.{found, mark_visited, take_event, pop_found, pop_ready, spool_pop, advance}
use yella.Spool.Codec.{drop_past, read_parts-encode_parts}
use yella.Spool.Contents.{contents-update_file, pos_eq_refl}
use yella.Spool.Push.{IsHealthy}
use yella.Spool.Advance.{IsEvent, encode_visited, visited_header, advance_lem}

-- Bytes that are replaced by as many others.
pub overwrite_lem :
    (b new x rest : Bytes) (off : ℕ)
    → drop off b ≡ x ++ rest
    → length new ≡ length x
    → 0 < length x
    → (take off (overwrite off new b) ≡ take off b)
      × (drop off (overwrite off new b) ≡ new ++ rest)
      × (length (overwrite off new b) ≡ length b)
unfolding overwrite
overwrite_lem b new x rest off next same some_bytes =
    let inside : length b - off ≡ length x + length rest =
      sym (length-drop off b) ∙ ap length next ∙ length-append x rest in
    let head : length (take off b) ≡ off = omega (arith, length-take off b) in
    let tail : drop (off + length new) b ≡ rest = rw same (drop_past b off x rest next) in
    rw tail (
      take-append (take off b) (new ++ rest) off (sym head),
      drop-append (take off b) (new ++ rest) off (sym head),
      omega (arith, length-append (take off b) (new ++ rest), length-append new rest),
    )

-- From `s` to `s'` the event of parts `ds` that starts at `at` in the file `b`, followed there by
-- `rest`, was popped.
pub record Popped (s s' : Spool) (b : Bytes) (at : ℕ) (ds : List Bytes) (rest : Bytes)
    : Type 0 where
  pub write_pos : s'.write_pos ≡ s.write_pos
  pub read_pos : s'.read_pos ≡ s.read_pos
  pub writef : s'.writef ≡ s.writef
  pub readf : s'.readf ≡ some (seek (at + 2 + length (encode_parts ds)))
  pub file : Bytes
  pub stored : contents s'.dir s.read_pos ≡ some file
  pub before : take at file ≡ take at b
  pub marked : drop at file ≡ encode_event (set_visited (length ds)) ds ++ rest
  pub same_length : length file ≡ length b
  pub others : (q : Pos) → pos_eq s.read_pos q ≡ false → contents s'.dir q ≡ contents s.dir q
  pub current_size : s'.stats.current_size ≡ s.stats.current_size
  pub limits :
      (s'.stats.max_partition_size ≡ s.stats.max_partition_size)
      × (s'.stats.max_partitions ≡ s.stats.max_partitions)
  pub events_read : s'.stats.events_read ≡ add_size s.stats.events_read 1

-- The spool after the event of parts `ds` at `at` was popped.
abbrev after_pop : Spool → ℕ → List Bytes → Spool
after_pop s at ds = record s {
  dir = update_file s.dir s.read_pos (overwrite at (bytes_of 2 (set_visited (length ds))));
  readf = some (seek (at + 2 + length (encode_parts ds)));
  calls = s.calls + 1;
  stats = record s.stats { events_read = add_size s.stats.events_read 1 };
}

header_bytes :
    (n : ℕ) (ds : List Bytes) → n < 2 ^ 16 → encode_event n ds ≡ bytes_of 2 n ++ encode_parts ds
unfolding encode_event
header_bytes n ds h = let e : n % 2 ^ 16 ≡ n = omega arith in rw e

after_pop-Popped :
    (s : Spool) (b : Bytes) (at : ℕ) (ds : List Bytes) (rest : Bytes)
    → IsEvent ds
    → contents s.dir s.read_pos ≡ some b
    → drop at b ≡ encode_event (length ds) ds ++ rest
    → Popped s (after_pop s at ds) b at ds rest
after_pop-Popped s b at ds rest fine file next =
    let n = length ds in
    let (_, _, small, _, _) = visited_header n fine.0 in
    let new = bytes_of 2 (set_visited n) in
    let body = encode_parts ds ++ rest in
    let shape : drop at b ≡ bytes_of 2 n ++ body =
      next
      ∙ ap (λ t. t ++ rest) (header_bytes n ds (omega arith))
      ∙ append_assoc (bytes_of 2 n) (encode_parts ds) rest in
    let (kept, marked, len) =
      overwrite_lem b new (bytes_of 2 n) body at shape
        (length-bytes_of 2 (set_visited n) ∙ sym (length-bytes_of 2 n))
        (omega (arith, length-bytes_of 2 n)) in
    let seen = contents-update_file s.dir s.read_pos in
    record {
      write_pos = refl;
      read_pos = refl;
      writef = refl;
      readf = refl;
      file = overwrite at new b;
      stored = seen s.read_pos _ ∙ rw (pos_eq_refl s.read_pos, file);
      before = kept;
      marked =
          marked
          ∙ sym (append_assoc new (encode_parts ds) rest)
          ∙ ap (λ t. t ++ rest) (sym (header_bytes (set_visited n) ds small));
      same_length = len;
      others = λ q other. seen q _ ∙ rw other;
      current_size = refl;
      limits = (refl, refl);
      events_read = refl;
    }

module _ (io : Stdio) where
  pub pop_found-found :
      (n : ℕ) (r : Reader) (s : Spool) → 0 < n → pop_found io (found n r, s) ≡ take_event io s n r
  unfolding pop_found
  pop_found-found zero r s h = absurd (omega arith)
  pop_found-found (suc n) r s h = refl

  pub spool_pop-ahead :
      (fuel : ℕ) (wait : Spool → Bool × Spool) (s : Spool)
      → compare_write_to_read s ≡ some Ordering.gt
      → spool_pop io fuel wait s ≡ pop_found io (advance io fuel s s.readf)
  unfolding spool_pop pop_ready
  spool_pop-ahead fuel wait s ahead = rw (ahead, spool_pop) (rw (ahead, pop_ready))

module _ (io : Stdio) (healthy : IsHealthy io) where
  take_event_lem :
      (s : Spool) (b : Bytes) (at : ℕ) (ds : List Bytes) (rest : Bytes)
      → All Fits ds
      → drop (at + 2) (read_bytes s) ≡ encode_parts ds ++ rest
      → take_event io s (length ds) (seek (at + 2)) ≡ (no_error, ds, after_pop s at ds)
  unfolding take_event mark_visited
  take_event_lem s b at ds rest fits next =
      let header = bytes_of 2 (set_visited (length ds)) in
      let back : at + 2 - 2 ≡ at = omega arith in
      let whole : take 2 header ≡ header = take-all header 2 (sym (length-bytes_of 2 _)) in
      let parts = read_parts-encode_parts s (at + 2) ds rest fits next in
      rw (parts, back, healthy.writes s.calls 2, whole, take_event, mark_visited) (rw parts)

  -- If the writer is ahead, and in the reader's file the stream stands at events that were read
  -- already, fewer than the fuel, followed by one that was not, then `spool_pop` returns exactly
  -- that event's parts. The file then differs only in the event's header, which says that it was
  -- read, the stream stands behind the event, and the other files and the writer are as before.
  pub spool_pop_returns :
      (fuel : ℕ) (wait : Spool → Bool × Spool) (s : Spool) (b : Bytes) (off : ℕ)
      (es : List (List Bytes)) (ds : List Bytes) (rest : Bytes)
      → compare_write_to_read s ≡ some Ordering.gt
      → s.readf ≡ some (seek off)
      → contents s.dir s.read_pos ≡ some b
      → drop off b ≡ encode_visited es ++ (encode_event (length ds) ds ++ rest)
      → All IsEvent es
      → IsEvent ds
      → 0 < length ds
      → length es < fuel
      → let (rc, parts, s') = spool_pop io fuel wait s in
        (rc ≡ no_error) × (parts ≡ ds) × Popped s s' b (off + length (encode_visited es)) ds rest
  spool_pop_returns fuel wait s b off es ds rest ahead at file next ok fine some_parts enough =
      let here : read_bytes s ≡ b = rw (file, read_bytes) in
      let skipped = off + length (encode_visited es) in
      let (is_found, after) = advance_lem io s fuel off es ds rest ok fine enough (rw here next) in
      let s1 : Spool = record s { readf = some (seek (skipped + 2)) } in
      let result : spool_pop io fuel wait s ≡ (no_error, ds, after_pop s1 skipped ds) =
        spool_pop-ahead io fuel wait s ahead
        ∙ ap (λ o. pop_found io (advance io fuel s o)) at
        ∙ ap (pop_found io) is_found
        ∙ pop_found-found io (length ds) (seek (skipped + 2)) s1 some_parts
        ∙ take_event_lem s1 b skipped ds rest fine.1 after in
      let p =
        after_pop-Popped s1 b skipped ds rest fine file
          (drop_past b off (encode_visited es) (encode_event (length ds) ds ++ rest) next) in
      rw result (
        refl,
        refl,
        record {
          write_pos = refl;
          read_pos = refl;
          writef = refl;
          readf = refl;
          file = p.file;
          stored = p.stored;
          before = p.before;
          marked = p.marked;
          same_length = p.same_length;
          others = p.others;
          current_size = refl;
          limits = (refl, refl);
          events_read = refl;
        },
      )
