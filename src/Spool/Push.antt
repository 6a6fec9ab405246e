-- ===== src/Spool/Push.antt =====
-- What spool_push does to the files and the statistics (agent/agent/spool.c).
use mathlib.Core.Option
use yella.Prelude.{
  ℕ, ◌+◌, ◌*◌, ◌^◌, ◌%◌, ◌≤◌, ◌<◌, ◌≡◌, refl, sym, ap, ap₂, subst, ◌∙◌, Bool, true, false, List, [],
  ◌∷◌, ◌++◌, Option, none, some, arith, ◌==◌, ltb, leb, if◌then◌else◌, length, take, append_assoc,
  append-nil, length-append, max, min,
}
use yella.Spool.Event.{
  Bytes, bytes_of, part_size, encode_part, encode_parts, encode_event, max_msg_count,
  length-bytes_of, take-all,
}
use yella.Spool.Files.{Pos, pos_eq, contents, update_file}
use yella.Spool.State.{Spool, Stats, Stdio, no_error, add_size, moved, fwrite}
use yella.Spool.Write.{
  grown, counted, write_piece, write_parts, finish_push, write_event, spool_push,
}
use yella.Spool.Contents.{contents-update_file}
pub mod Append
pub use Append.*

-- From `s` to `s'` an event was pushed whose bytes are `new`.
pub record Pushed (s s' : Spool) (new : Bytes) : Type 0 where
  pub write_pos : s'.write_pos ≡ s.write_pos
  pub read_pos : s'.read_pos ≡ s.read_pos
  pub readf : s'.readf ≡ s.readf
  pub writef : s'.writef ≡ moved s.writef (length new)
  pub files :
      (q : Pos)
      → contents s'.dir q ≡ (
          if pos_eq s.write_pos q
          then Option.map (λ b. b ++ new) (contents s.dir q)
          else contents s.dir q)
  pub limits :
      (s'.stats.max_partition_size ≡ s.stats.max_partition_size)
      × (s'.stats.max_partitions ≡ s.stats.max_partitions)
  pub current_size : s'.stats.current_size ≡ s.stats.current_size + length new
  pub total : s'.total_event_bytes_written ≡ add_size s.total_event_bytes_written (length new)
  pub events_written : s'.stats.events_written ≡ add_size s.stats.events_written 1
  pub stats : s'.stats ≡ record s.stats {
    current_size = s.stats.current_size + length new;
    largest_size = max s.stats.largest_size (s.stats.current_size + length new);
    events_written = add_size s.stats.events_written 1;
    largest_event_size = max s.stats.largest_event_size (length new);
    smallest_event_size = min s.stats.smallest_event_size (length new);
  }
  pub largest_event_size : s'.stats.largest_event_size ≡ max s.stats.largest_event_size (length new)
  pub smallest_event_size :
      s'.stats.smallest_event_size ≡ min s.stats.smallest_event_size (length new)

counted-Pushed :
    (s t : Spool) (e : ℕ) (new : Bytes)
    → Appended s t new
    → e ≡ add_size 0 (length new)
    → s.stats.current_size + length new < 2 ^ 64
    → Pushed s (counted t e) new
counted-Pushed s t e new h size small =
    let exact : e ≡ length new = omega arith in
    record {
      write_pos = h.write_pos;
      read_pos = h.read_pos;
      readf = h.readf;
      writef = h.writef;
      files = h.files;
      limits = (
        ap (λ (st : Stats). st.max_partition_size) h.stats,
        ap (λ (st : Stats). st.max_partitions) h.stats,
      );
      current_size = ap (λ (st : Stats). st.current_size) h.stats ∙ omega arith;
      total = ap₂ add_size h.total exact;
      events_written = ap (λ (st : Stats). add_size st.events_written 1) h.stats;
      stats =
          ap₂
            (λ (st : Stats) (n : ℕ). record st {
              largest_size = max st.largest_size st.current_size;
              events_written = add_size st.events_written 1;
              largest_event_size = max st.largest_event_size n;
              smallest_event_size = min st.smallest_event_size n;
            })
            h.stats exact
          ∙ ap
              (λ (c : ℕ). record s.stats {
                current_size = c;
                largest_size = max s.stats.largest_size c;
                events_written = add_size s.stats.events_written 1;
                largest_event_size = max s.stats.largest_event_size (length new);
                smallest_event_size = min s.stats.smallest_event_size (length new);
              })
              (omega arith);
      largest_event_size = ap₂ max (ap (λ (st : Stats). st.largest_event_size) h.stats) exact;
      smallest_event_size = ap₂ min (ap (λ (st : Stats). st.smallest_event_size) h.stats) exact;
    }

module _ (io : Stdio) (healthy : IsHealthy io) where
  pub write_piece_lem :
      (s : Spool) (e : ℕ) (piece : Bytes)
      → write_piece io s e piece ≡ (true, add_size e (length piece), with_piece s piece)
  unfolding write_piece fwrite
  write_piece_lem s e piece =
      let same : (length piece == length piece) ≡ true = ground arith in
      rw (healthy.writes s.calls (length piece), same, take-all piece (length piece) refl)

  -- The event so far, and the writer's file with it, after the loop over the parts.
  record Written (s0 s' : Spool) (e' : ℕ) (new : Bytes) (ok : Bool) : Type 0 where
    ok_true : ok ≡ true
    size : e' ≡ add_size 0 (length new)
    appended : Appended s0 s' new

  write_parts-Written :
      (s0 s : Spool) (new : Bytes) (ds : List Bytes) (e : ℕ)
      → Appended s0 s new
      → e ≡ add_size 0 (length new)
      → let (ok, e', s') = write_parts io s e ds in Written s0 s' e' (new ++ encode_parts ds) ok
  unfolding write_parts encode_parts encode_part
  write_parts-Written s0 s new [] e h eq =
      rw append-nil (record { ok_true = refl; size = eq; appended = h })
  write_parts-Written s0 s new (d ∷ ds) e h eq =
      let p1 = bytes_of 4 (part_size d) in
      let p2 = take (part_size d) d in
      let s1 = with_piece s p1 in
      let s2 = with_piece s1 p2 in
      let h1 = Appended-trans s0 s s1 new p1 h (with_piece-Appended s p1) in
      let h2 = Appended-trans s0 s1 s2 (new ++ p1) p2 h1 (with_piece-Appended s1 p2) in
      let e2 : add_size (add_size e (length p1)) (length p2)
          ≡ add_size 0 (length ((new ++ p1) ++ p2)) =
        rw eq (omega (arith, length-append new p1, length-append (new ++ p1) p2)) in
      let regroup : ((new ++ p1) ++ p2) ++ encode_parts ds
          ≡ new ++ (encode_part d ++ encode_parts ds) =
        simp append_assoc in
      let ih = write_parts-Written s0 s2 ((new ++ p1) ++ p2) ds _ h2 e2 in
      rw (write_piece_lem s e p1, write_piece_lem s1 (add_size e (length p1)) p2)
        (subst
          (λ (t : Bytes).
            let (ok, e', s') =
              write_parts io s2 (add_size (add_size e (length p1)) (length p2)) ds in
            Written s0 s' e' t ok)
          regroup ih)

  finish_push-room :
      (s : Spool) (e : ℕ)
      → s.stats.current_size < s.stats.max_partitions * s.stats.max_partition_size % 2 ^ 64
      → finish_push io s e ≡ (no_error, counted s e)
  unfolding finish_push
  finish_push-room s e h =
      let under : leb (s.stats.max_partitions * s.stats.max_partition_size % 2 ^ 64)
            s.stats.current_size
          ≡ false =
        ground arith in
      rw under

  write_event_lem :
      (s : Spool) (msgs : List Bytes)
      → length msgs ≤ max_msg_count
      → let header = bytes_of 2 (length msgs) in
        let (ok, e, s') = write_parts io (with_piece s header) (add_size 0 2) msgs in
        (write_event io s msgs ≡ finish_push io s' e)
        × Written s s' e (encode_event (length msgs) msgs) ok
  unfolding write_event encode_event
  write_event_lem s msgs few =
      let small : length msgs % 2 ^ 16 ≡ length msgs = omega arith in
      let header = bytes_of 2 (length msgs) in
      let allowed : ltb max_msg_count (length msgs) ≡ false = ground arith in
      let size : add_size 0 (length header) ≡ add_size 0 2 =
        ap (add_size 0) (length-bytes_of 2 (length msgs)) in
      let w =
        write_parts-Written s (with_piece s header) header msgs (add_size 0 2)
          (with_piece-Appended s header) (sym size) in
      (rw (small, write_piece_lem s 0 header, size, allowed, w.ok_true), rw small w)

  spool_push-room :
      (s : Spool) (off : ℕ) (msgs : List Bytes)
      → s.writef ≡ some off
      → off < s.stats.max_partition_size
      → spool_push io s msgs ≡ write_event io s msgs
  unfolding spool_push
  spool_push-room s off msgs open_at room = ground (arith, open_at)

  -- On a file system where no call fails, with room in the partition and in the spool, an event of
  -- at most 4095 parts is appended to the writer's file, and to no other, exactly as it is encoded,
  -- the reader stays where it is, and the statistics follow: the size and the bytes that were written
  -- grow by the event's size and the events by one, the largest size is that or the new size, the
  -- largest and the smallest event take in this one, and all others are as before.
  pub spool_push_appends :
      (s : Spool) (off : ℕ) (msgs : List Bytes)
      → s.writef ≡ some off
      → off < s.stats.max_partition_size
      → length msgs ≤ max_msg_count
      → s.stats.current_size + length (encode_event (length msgs) msgs)
        < s.stats.max_partitions * s.stats.max_partition_size
      → s.stats.max_partitions * s.stats.max_partition_size < 2 ^ 64
      → let (rc, s') = spool_push io s msgs in
        (rc ≡ no_error) × Pushed s s' (encode_event (length msgs) msgs)
  spool_push_appends s off msgs open_at room few fits bounded =
      let header = bytes_of 2 (length msgs) in
      let out = write_parts io (with_piece s header) (add_size 0 2) msgs in
      let (is_finish, w) = write_event_lem s msgs few in
      let new = encode_event (length msgs) msgs in
      let st : out.2.stats ≡ grown (length new) s.stats = w.appended.stats in
      let done : write_event io s msgs ≡ (no_error, counted out.2 out.1) =
        is_finish ∙ finish_push-room out.2 out.1 (rw st (omega arith)) in
      rw (spool_push-room s off msgs open_at room, done)
        (refl, counted-Pushed s out.2 out.1 new w.appended w.size (omega arith))
