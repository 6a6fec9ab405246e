-- ===== src/Spool/State.antt =====
-- The spool's state and its operations (agent/agent/spool.c).
use yella.Prelude.{
  ℕ, ◌+◌, ◌-◌, ◌^◌, ◌%◌, Bool, true, false, not, [], ◌++◌, Option, none, some, Ordering, ◌==◌, ltb,
  if◌then◌else◌, length, take, drop, sign32,
}
use yella.Spool.Event.{Bytes, bytes_of, spool_id, read_at}
use yella.Spool.Files.{Pos, Dir, contents, create_file, update_file}

-- `spool_stats`
pub record Stats : Type 0 where
  pub max_partition_size : ℕ
  pub max_partitions : ℕ
  pub current_size : ℕ
  pub largest_size : ℕ
  pub files_created : ℕ
  pub files_destroyed : ℕ
  pub bytes_culled : ℕ
  pub events_read : ℕ
  pub events_written : ℕ
  pub smallest_event_size : ℕ
  pub largest_event_size : ℕ
  pub average_event_size : ℕ
  pub cull_events : ℕ

-- A stream open for reading: `ftell` and `feof`.
pub record Reader : Type 0 where
  pub off : ℕ
  pub eof : Bool

-- `struct spool`. `writef` is the stream's `ftell`, `none` for NULL; the files are named by their
-- positions. `calls` numbers the calls of the C library whose results the environment decides.
pub record Spool : Type 0 where
  pub dir : Dir
  pub write_pos : Pos
  pub writef : Option ℕ
  pub read_pos : Pos
  pub readf : Option Reader
  pub stats : Stats
  pub total_event_bytes_written : ℕ
  pub calls : ℕ

-- The results of stdio calls, by the number of the call: whether `fopen` succeeds, the bytes that
-- `fwrite` reports for so many requested, whether `fflush` and `remove` succeed.
pub record Stdio : Type 0 where
  pub opens : ℕ → Bool
  pub writes : ℕ → ℕ → ℕ
  pub flushes : ℕ → Bool
  pub removes : ℕ → Bool

-- A `yella_rc`; `crash` is a fault that the C code runs into (a NULL stream or name, a failed
-- assertion), and `starved` is a model's loop that ran out of fuel.
pub data Rc : Type 0 where
  no_error too_big invalid_format logic_error does_not_exist read_error file_system_error : Rc
  no_permission already_exists write_error timed_out crash starved : Rc

-- `size_t` sums and differences, and 32-bit sums
abbrev pub add_size : ℕ → ℕ → ℕ
add_size a b = (a + b) % 2 ^ 64

abbrev pub sub_size : ℕ → ℕ → ℕ
sub_size a b = (a + 2 ^ 64 - b) % 2 ^ 64

abbrev pub add32 : ℕ → ℕ → ℕ
add32 a b = (a + b) % 2 ^ 32

abbrev offsets : Option ℕ → Option Reader → Option Ordering
offsets (some w) (some r) = some (sign32 w r.off)
offsets _ _ = none

-- `compare_write_to_read`; `none` is `ftell(NULL)`.
unfoldable pub compare_write_to_read : Spool → Option Ordering
compare_write_to_read s =
    if ltb s.read_pos.major_seq s.write_pos.major_seq
    then some Ordering.gt
    else if s.write_pos.major_seq == s.read_pos.major_seq
    then (if s.write_pos.minor_seq == s.read_pos.minor_seq
        then offsets s.writef s.readf
        else some (sign32 s.write_pos.minor_seq s.read_pos.minor_seq))
    else some Ordering.lt

abbrev file_size : Option Bytes → ℕ
file_size none = 0
file_size (some b) = length b

abbrev pub moved : Option ℕ → ℕ → Option ℕ
moved none n = none
moved (some w) n = some (w + n)

-- The reading stream's file.
abbrev pub read_bytes : Spool → Bytes
read_bytes s = elim (contents s.dir s.read_pos) [ none ↦ [] | some b ↦ b ]

-- `fread(..., 1, n, sp->readf)` through an open stream: at the end of the file, and ever after
-- until a seek, nothing comes and the end-of-file indicator is set.
unfoldable pub fread : Spool → Reader → ℕ → Bytes × Reader
fread s r n =
    if r.eof
    then ([], r)
    else (let got = read_at (read_bytes s) r.off n in
        (got, record { off = r.off + length got; eof = ltb (length got) n }))

-- `fseek` clears the end-of-file indicator.
abbrev pub seek : ℕ → Reader
seek off = record { off = off; eof = false }

-- The bytes of a file with some of them replaced from an offset on.
unfoldable pub overwrite : ℕ → Bytes → Bytes → Bytes
overwrite off new file = take off file ++ (new ++ drop (off + length new) file)

module _ (io : Stdio) where
  -- `fwrite(data, 1, len, sp->writef)`: the bytes that it reports are in the file.
  unfoldable pub fwrite : Spool → Bytes → ℕ × Spool
  fwrite s data_bytes =
      let n = io.writes s.calls (length data_bytes) in
      (
        n,
        record s {
          dir = update_file s.dir s.write_pos (λ b. b ++ take n data_bytes);
          writef = moved s.writef n;
          calls = s.calls + 1;
        },
      )

  -- `increment_write_spool_partition`
  unfoldable pub increment_write_spool_partition : Spool → Bool × Spool
  increment_write_spool_partition s =
      let pos : Pos = record s.write_pos { minor_seq = add32 s.write_pos.minor_seq 1 } in
      let opened : Spool = record s {
        dir = create_file s.dir pos;
        write_pos = pos;
        writef = some 0;
        calls = s.calls + 1;
      } in
      let (n, written) = fwrite opened (bytes_of 8 spool_id) in
      let closed : Spool = record written { writef = none } in
      if not (io.opens s.calls)
      then (false, record s { write_pos = pos; writef = none; calls = s.calls + 1 })
      else if not (n == 8)
      then (false, closed)
      else if not (io.flushes written.calls)
      then (false, record closed { calls = written.calls + 1 })
      else (
        true,
        record written {
          calls = written.calls + 1;
          stats = record s.stats {
            current_size = add_size s.stats.current_size n;
            files_created = add_size s.stats.files_created 1;
          };
        },
      )
