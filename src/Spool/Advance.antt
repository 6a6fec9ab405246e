-- ===== src/Spool/Advance.antt =====
-- How the reader finds the next event (agent/agent/spool.c: advance_to_next_unvisited).
use yella.Prelude.{
  ℕ, zero, suc, ◌+◌, ◌%◌, ◌^◌, ◌≤◌, ◌<◌, ◌≡◌, sym, ap, ◌∙◌, true, false, List, [], ◌∷◌, ◌++◌, some,
  arith, length, drop, append_assoc, length-append, All,
}
use yella.Spool.Event.{
  Bytes, bytes_of, value_of, max_msg_count, event_is_visited, event_msg_count, set_visited,
  encode_parts, encode_event, Fits, length-bytes_of, value_of-bytes_of_two,
}
use yella.Spool.State.{Spool, Stdio, read_bytes, fread, seek}
use yella.Spool.Read.{found, advance}
use yella.Spool.Codec.{drop_past, fread_next, skip_parts-encode_parts}

-- The header of an event is read, and its parts are next.
pub fread_header :
    (s : Spool) (off header : ℕ) (ds : List Bytes) (rest : Bytes)
    → header < 2 ^ 16
    → drop off (read_bytes s) ≡ encode_event header ds ++ rest
    → (fread s (seek off) 2 ≡ (bytes_of 2 header, seek (off + 2)))
      × (value_of (bytes_of 2 header) ≡ header)
      × (drop (off + 2) (read_bytes s) ≡ encode_parts ds ++ rest)
unfolding encode_event
fread_header s off header ds rest small next =
    let same : header % 2 ^ 16 ≡ header = omega arith in
    let shape : drop off (read_bytes s) ≡ bytes_of 2 header ++ (encode_parts ds ++ rest) =
      next
      ∙ ap (λ (n : ℕ). (bytes_of 2 n ++ encode_parts ds) ++ rest) same
      ∙ append_assoc (bytes_of 2 header) (encode_parts ds) rest in
    let (got, after) =
      fread_next s off 2 (bytes_of 2 header) (encode_parts ds ++ rest) shape
        (sym (length-bytes_of 2 header)) in
    (got, value_of-bytes_of_two header small, after)

pub length-encode_event :
    (header : ℕ) (ds : List Bytes) → length (encode_event header ds) ≡ 2 + length (encode_parts ds)
unfolding encode_event
length-encode_event header ds = omega (
  arith,
  length-append (bytes_of 2 (header % 2 ^ 16)) (encode_parts ds),
  length-bytes_of 2 (header % 2 ^ 16),
)

pub visited_header :
    (n : ℕ)
    → n ≤ max_msg_count
    → (event_is_visited n ≡ false)
      × (event_msg_count n ≡ n)
      × (set_visited n < 2 ^ 16)
      × (event_is_visited (set_visited n) ≡ true)
      × (event_msg_count (set_visited n) ≡ n)
unfolding event_is_visited event_msg_count set_visited
visited_header n h = ground arith

-- Events that were read already, as they stand in the file.
abbrev pub encode_visited : List (List Bytes) → Bytes
encode_visited [] = []
encode_visited (ds ∷ es) = encode_event (set_visited (length ds)) ds ++ encode_visited es

-- An event that `spool_push` may write: at most 4095 parts, each of a 32-bit size.
abbrev pub IsEvent : List Bytes → Type 0
IsEvent ds = (length ds ≤ max_msg_count) × All Fits ds

module _ (io : Stdio) (s : Spool) where
  -- One of them is passed over in one round.
  advance_skips :
      (f off : ℕ) (ds : List Bytes) (rest : Bytes)
      → length ds ≤ max_msg_count
      → All Fits ds
      → drop off (read_bytes s) ≡ encode_event (set_visited (length ds)) ds ++ rest
      → (advance io (suc f) s (some (seek off))
          ≡ advance io f s (some (seek (off + length (encode_event (set_visited (length ds)) ds)))))
        × (drop (off + length (encode_event (set_visited (length ds)) ds)) (read_bytes s) ≡ rest)
  unfolding advance
  advance_skips f off ds rest few fit next =
      let (_, _, small, seen, counts) = visited_header (length ds) few in
      let header = set_visited (length ds) in
      let (got, value, after) = fread_header s off header ds rest small next in
      let skip = skip_parts-encode_parts s (off + 2) ds rest fit after in
      let two : length (bytes_of 2 header) ≡ 2 = length-bytes_of 2 header in
      let end : off + 2 + length (encode_parts ds) ≡ off + length (encode_event header ds) =
        omega (arith, length-encode_event header ds) in
      (
        rw (got, value, two, seen, counts, skip, end),
        drop_past (read_bytes s) off (encode_event header ds) rest next,
      )

  advance_finds :
      (f off : ℕ) (ds : List Bytes) (rest : Bytes)
      → length ds ≤ max_msg_count
      → drop off (read_bytes s) ≡ encode_event (length ds) ds ++ rest
      → (advance io (suc f) s (some (seek off))
          ≡ (found (length ds) (seek (off + 2)), record s { readf = some (seek (off + 2)) }))
        × (drop (off + 2) (read_bytes s) ≡ encode_parts ds ++ rest)
  unfolding advance
  advance_finds f off ds rest few next =
      let (fresh, counts, _, _, _) = visited_header (length ds) few in
      let (got, value, after) = fread_header s off (length ds) ds rest (omega arith) next in
      let two : length (bytes_of 2 (length ds)) ≡ 2 = length-bytes_of 2 (length ds) in
      (rw (got, value, two, fresh, counts), after)

  -- Behind any number of events that were read already, the next one is found, and no other: with
  -- more fuel than such events the scan ends, the stream stands behind the event's header, and
  -- nothing but the stream has changed.
  pub advance_lem :
      (f off : ℕ) (es : List (List Bytes)) (ds : List Bytes) (rest : Bytes)
      → All IsEvent es
      → IsEvent ds
      → length es < f
      → drop off (read_bytes s) ≡ encode_visited es ++ (encode_event (length ds) ds ++ rest)
      → let at = off + length (encode_visited es) + 2 in
        (advance io f s (some (seek off))
          ≡ (found (length ds) (seek at), record s { readf = some (seek at) }))
        × (drop at (read_bytes s) ≡ encode_parts ds ++ rest)
  advance_lem zero off es ds rest ok fine fuel next = absurd (omega arith)
  advance_lem (suc f) off [] ds rest ok fine fuel next =
      let e : off + 0 + 2 ≡ off + 2 = omega arith in rw e (advance_finds f off ds rest fine.0 next)
  advance_lem (suc f) off (ds' ∷ es) ds rest ok fine fuel next =
      let x = encode_event (set_visited (length ds')) ds' in
      let (skips, after) =
        advance_skips f off ds' (encode_visited es ++ (encode_event (length ds) ds ++ rest)) ok.0.0
          ok.0.1
          (next ∙ append_assoc x (encode_visited es) (encode_event (length ds) ds ++ rest)) in
      let e : off + length (x ++ encode_visited es) + 2
          ≡ off + length x + length (encode_visited es) + 2 =
        omega (arith, length-append x (encode_visited es)) in
      rw (skips, e) (advance_lem f (off + length x) es ds rest ok.1 fine (omega arith) after)
