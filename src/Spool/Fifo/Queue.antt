-- ===== src/Spool/Fifo/Queue.antt =====
-- Sequences of pushes and pops, the queue that the spool promises to be, and what a spool holds of it
-- (agent/agent/spool.c).
use yella.Prelude.{
  ℕ, ◌+◌, ◌*◌, ◌^◌, ◌≤◌, ◌<◌, ◌≡◌, sym, ap, ◌∙◌, Bool, false, List, [], ◌∷◌, ◌++◌, some, length,
  drop, append_assoc, append-nil, All,
}
use yella.Spool.Event.{Bytes, encode_event}
use yella.Spool.Files.{contents}
use yella.Spool.State.{Spool, Stdio, Rc, no_error, timed_out, seek}
use yella.Spool.Write.{spool_push}
use yella.Spool.Read.{spool_pop}
use yella.Spool.Advance.{IsEvent}

-- What a client of the spool asks, and what it sees.
pub data Op : Type 0 where
  push : List Bytes → Op
  pop : Op

abbrev pub Reply : Type 0
Reply = Rc × List Bytes

-- A wait that nobody ends.
abbrev pub quiet : Spool → Bool × Spool
quiet s = (false, s)

unfoldable pub run : Stdio → Spool → List Op → List Reply
run io s [] = []
run io s (push ds ∷ ops) = let (rc, s') = spool_push io s ds in (rc, []) ∷ run io s' ops
run io s (pop ∷ ops) = let (rc, ds, s') = spool_pop io 1 quiet s in (rc, ds) ∷ run io s' ops

-- The queue that the spool promises to be.
unfoldable pub run_queue : List (List Bytes) → List Op → List Reply
run_queue es [] = []
run_queue es (push ds ∷ ops) = (no_error, []) ∷ run_queue (es ++ ds ∷ []) ops
run_queue [] (pop ∷ ops) = (timed_out, []) ∷ run_queue [] ops
run_queue (ds ∷ es) (pop ∷ ops) = (no_error, ds) ∷ run_queue es ops

-- The bytes that the pushes among some operations will write.
unfoldable pub cost : List Op → ℕ
cost [] = 0
cost (push ds ∷ ops) = length (encode_event (length ds) ds) + cost ops
cost (pop ∷ ops) = cost ops

-- An event of at least one part, at most 4095, each of a 32-bit size.
abbrev pub IsMessage : List Bytes → Type 0
IsMessage ds = IsEvent ds × (0 < length ds)

abbrev pub PushesMessages : List Op → Type 0
PushesMessages [] = Unit
PushesMessages (push ds ∷ ops) = IsMessage ds × PushesMessages ops
PushesMessages (pop ∷ ops) = PushesMessages ops

abbrev pub encode_queue : List (List Bytes) → Bytes
encode_queue [] = []
encode_queue (ds ∷ es) = encode_event (length ds) ds ++ encode_queue es

pub encode_queue-append :
    (es : List (List Bytes)) (ds : List Bytes)
    → encode_queue (es ++ ds ∷ []) ≡ encode_queue es ++ encode_event (length ds) ds
encode_queue-append [] ds = append-nil (encode_event (length ds) ds)
encode_queue-append (e ∷ es) ds =
    ap (λ t. encode_event (length e) e ++ t) (encode_queue-append es ds)
    ∙ sym (append_assoc (encode_event (length e) e) (encode_queue es) (encode_event (length ds) ds))

-- The reader and the writer are in one file, the events `es` lie between them, and `room` more
-- bytes fit the partition, the spool and the 31 bits of an offset difference.
pub record Holds (s : Spool) (es : List (List Bytes)) (room : ℕ) : Type 0 where
  pub same_file : s.read_pos ≡ s.write_pos
  pub off : ℕ
  pub file : Bytes
  pub readf : s.readf ≡ some (seek off)
  pub writef : s.writef ≡ some (length file)
  pub stored : contents s.dir s.read_pos ≡ some file
  pub queue : drop off file ≡ encode_queue es
  pub within : off ≤ length file
  pub messages : All IsMessage es
  pub partition : length file + room < s.stats.max_partition_size
  pub offsets : length file + room < 2 ^ 31
  pub total : s.stats.current_size + room < s.stats.max_partitions * s.stats.max_partition_size
  pub bounded : s.stats.max_partitions * s.stats.max_partition_size < 2 ^ 64
