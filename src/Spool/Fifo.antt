-- ===== src/Spool/Fifo.antt =====
-- The spool against a queue of events (agent/agent/spool.c: spool_push and spool_pop in sequence,
-- while the reader and the writer are in one file).

use yella.Prelude.{
  ℕ, zero, suc, ◌+◌, ◌-◌, ◌*◌, ◌^◌, ◌≤◌, ◌<◌, ◌≡◌, refl, sym, ap, ap₂, ◌∙◌, Bool, true, false, List,
  [], ◌∷◌, ◌++◌, some, Ordering, arith, length, drop, append_assoc, append-nil, length-append,
  length-drop, All,
}
use yella.Spool.Event.{Bytes, set_visited, encode_event}
use yella.Spool.Files.{pos_eq, contents}
use yella.Spool.State.{Spool, Stdio, Rc, no_error, timed_out, compare_write_to_read, seek}
use yella.Spool.Write.{spool_push}
use yella.Spool.Read.{spool_pop}
use yella.Spool.Contents.{pos_eq_refl}
use yella.Spool.Push.{IsHealthy, spool_push_appends}
use yella.Spool.Advance.{IsEvent, length-encode_event}
use yella.Spool.Pop.{Popped, spool_pop_returns}
use yella.Spool.Codec.{drop_past}
pub mod Queue
unfoldable pub use Queue.*

drop-append_le :
    {A : Type 0} (n : ℕ) (xs ys : List A) → n ≤ length xs → drop n (xs ++ ys) ≡ drop n xs ++ ys
drop-append_le zero xs ys h = refl
drop-append_le (suc n) [] ys h = absurd (omega arith)
drop-append_le (suc n) (x ∷ xs) ys h = drop-append_le n xs ys (omega arith)

messages-append :
    (es : List (List Bytes)) (ds : List Bytes)
    → All IsMessage es
    → IsMessage ds
    → All IsMessage (es ++ ds ∷ [])
messages-append [] ds h m = (m, tt)
messages-append (e ∷ es) ds h m = (h.0, messages-append es ds h.1 m)

compare_ahead :
    (s : Spool) (w off : ℕ)
    → s.read_pos ≡ s.write_pos
    → s.writef ≡ some w
    → s.readf ≡ some (seek off)
    → off < w
    → w < 2 ^ 31
    → compare_write_to_read s ≡ some Ordering.gt
unfolding compare_write_to_read
compare_ahead s w off same at_w at_r less small = rw (same, at_w, at_r) (ground arith)

compare_level :
    (s : Spool) (w : ℕ)
    → s.read_pos ≡ s.write_pos
    → s.writef ≡ some w
    → s.readf ≡ some (seek w)
    → compare_write_to_read s ≡ some Ordering.eq
unfolding compare_write_to_read
compare_level s w same at_w at_r = rw (same, at_w, at_r) (ground arith)

spool_pop-level :
    (io : Stdio) (fuel : ℕ) (s : Spool)
    → compare_write_to_read s ≡ some Ordering.eq
    → spool_pop io fuel quiet s ≡ (timed_out, [], s)
unfolding spool_pop
spool_pop-level io fuel s level = rw (level, spool_pop)

Popped-Holds :
    (s t : Spool) (es : List (List Bytes)) (ds : List Bytes) (room at : ℕ)
    → (h : Holds s (ds ∷ es) room) → Popped s t h.file at ds (encode_queue es)
    → at ≡ h.off
    → Holds t es room
Popped-Holds s t es ds room at h p e =
    let event = encode_event (set_visited (length ds)) ds in
    let two = length-encode_event (set_visited (length ds)) ds in
    let left : length h.file - h.off
        ≡ length (encode_event (length ds) ds) + length (encode_queue es) =
      sym (length-drop h.off h.file)
      ∙ ap length h.queue
      ∙ length-append (encode_event (length ds) ds) (encode_queue es) in
    record {
      same_file = p.read_pos ∙ h.same_file ∙ sym p.write_pos;
      off = at + length event;
      file = p.file;
      readf = p.readf ∙ ap (λ k. some (seek k)) (omega (arith, two));
      writef = p.writef ∙ h.writef ∙ ap some (sym p.same_length);
      stored = rw p.read_pos p.stored;
      queue = drop_past p.file at event (encode_queue es) p.marked;
      within = omega (arith, p.same_length, two, left, length-encode_event (length ds) ds);
      messages = h.messages.1;
      partition = rw (p.limits.0, p.same_length) h.partition;
      offsets = rw p.same_length h.offsets;
      total = rw (p.limits.0, p.limits.1, p.current_size) h.total;
      bounded = rw (p.limits.0, p.limits.1) h.bounded;
    }

module _ (io : Stdio) (healthy : IsHealthy io) where
  pub push-Holds :
      (s : Spool) (es : List (List Bytes)) (ds : List Bytes) (room : ℕ)
      → Holds s es (length (encode_event (length ds) ds) + room)
      → IsMessage ds
      → ((spool_push io s ds).0 ≡ no_error)
        × Holds (spool_push io s ds).1 (es ++ ds ∷ []) room
        × ((spool_push io s ds).1.stats.current_size
            ≡ s.stats.current_size + length (encode_event (length ds) ds))
  push-Holds s es ds room h m =
      let new = encode_event (length ds) ds in
      let (rc, p) =
        spool_push_appends io healthy s (length h.file) ds h.writef (omega arith) m.0.0
          (omega arith) h.bounded in
      let hit : pos_eq s.write_pos s.read_pos ≡ true = rw h.same_file (pos_eq_refl s.write_pos) in
      (
        rc,
        record {
          same_file = p.read_pos ∙ h.same_file ∙ sym p.write_pos;
          off = h.off;
          file = h.file ++ new;
          readf = p.readf ∙ h.readf;
          writef = p.writef ∙ rw h.writef (ap some (sym (length-append h.file new)));
          stored = rw (p.read_pos, p.files s.read_pos, hit, h.stored);
          queue =
              drop-append_le h.off h.file new h.within
              ∙ rw h.queue (sym (encode_queue-append es ds));
          within = omega (arith, length-append h.file new);
          messages = messages-append es ds h.messages m;
          partition = rw p.limits.0 (omega (arith, length-append h.file new));
          offsets = omega (arith, length-append h.file new);
          total = rw (p.limits.0, p.limits.1, p.current_size) (omega arith);
          bounded = rw (p.limits.0, p.limits.1) h.bounded;
        },
        p.current_size,
      )

  pub pop-Holds :
      (s : Spool) (es : List (List Bytes)) (ds : List Bytes) (room : ℕ)
      → Holds s (ds ∷ es) room
      → let (rc, parts, s') = spool_pop io 1 quiet s in
        (rc ≡ no_error)
        × (parts ≡ ds)
        × Holds s' es room
        × (s'.stats.current_size ≡ s.stats.current_size)
  pop-Holds s es ds room h =
      let event = encode_event (length ds) ds in
      let left : length h.file - h.off ≡ length event + length (encode_queue es) =
        sym (length-drop h.off h.file)
        ∙ ap length h.queue
        ∙ length-append event (encode_queue es) in
      let two = length-encode_event (length ds) ds in
      let ahead =
        compare_ahead s (length h.file) h.off h.same_file h.writef h.readf (omega arith)
          (omega arith) in
      let (rc, parts, p) =
        spool_pop_returns io healthy 1 quiet s h.file h.off [] ds (encode_queue es) ahead h.readf
          h.stored h.queue tt h.messages.0.0 h.messages.0.1 (omega arith) in
      (rc, parts, Popped-Holds s _ es ds room (h.off + 0) h p (omega arith), p.current_size)

  pub pop_empty-Holds :
      (s : Spool) (room : ℕ) → Holds s [] room → spool_pop io 1 quiet s ≡ (timed_out, [], s)
  pop_empty-Holds s room h =
      let left : length h.file - h.off ≡ 0 = sym (length-drop h.off h.file) ∙ ap length h.queue in
      let e : h.off ≡ length h.file = omega arith in
      spool_pop-level io 1 s
        (compare_level s (length h.file) h.same_file h.writef (h.readf ∙ ap (λ k. some (seek k)) e))

  -- The spool is a queue. From a spool that holds some events, on a file system where no call
  -- fails, no sequence of pushes of messages and of pops whose waits end by themselves can be told
  -- from the same sequence on a first-in first-out queue of those events, if the bytes that are
  -- written fit the partition, the spool's limit and the 31 bits of an offset difference.
  pub run_refines :
      (ops : List Op) (s : Spool) (es : List (List Bytes))
      → Holds s es (cost ops)
      → PushesMessages ops
      → run io s ops ≡ run_queue es ops
  unfolding run run_queue cost
  run_refines [] s es h m = refl
  run_refines (push ds ∷ ops) s es h m =
      let (rc, next, grown) = push-Holds s es ds (cost ops) h m.0 in
      ap₂ (λ (r : Rc) (rs : List Reply). (r, []) ∷ rs) rc
        (run_refines ops _ (es ++ ds ∷ []) next m.1)
  run_refines (pop ∷ ops) s [] h m =
      rw (pop_empty-Holds s (cost ops) h)
        (ap (λ rs. (timed_out, []) ∷ rs) (run_refines ops s [] h m))
  run_refines (pop ∷ ops) s (ds ∷ es) h m =
      let (rc, parts, next, kept) = pop-Holds s es ds (cost ops) h in
      rw (rc, parts) (ap (λ rs. (no_error, ds) ∷ rs) (run_refines ops _ es next m))
