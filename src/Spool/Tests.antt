-- ===== src/Spool/Tests.antt =====
-- The spool's theorems at concrete inputs.
use yella.Prelude.{arith, ◌≡◌, refl, true, false, List, [], ◌∷◌, ◌++◌, none, some, All, drop}
use yella.Spool.Event.{
  bytes_of, value_of, part_size, read_at, encode_event, encode_parts, encode_part,
}
use yella.Spool.Files.{
  Pos, pos_eq, is_spool_file, find_file, find_oldest_file, cmp_oldest, spool_pos_of, pos_ltb,
  contents, remove_file,
}
use yella.Spool.State.{
  Spool, no_error, timed_out, file_system_error, crash, compare_write_to_read, read_bytes, seek,
}
use yella.Spool.Write.{cull, spool_push}
use yella.Spool.Read.{spool_pop, advance, found}
use yella.Spool.Life.{create_spool}
use yella.Spool.Scan.{find_oldest_file_least, Present, NoneBetween, last_pos}
use yella.Spool.Push.{Pushed, spool_push_appends}
use yella.Spool.Advance.{advance_lem}
use yella.Spool.Pop.{Popped, spool_pop_returns}
use yella.Spool.Fifo.{Op, push, pop, run, run_queue, cost, quiet, run_refines}
use yella.Spool.Fresh.{create_spool_refines}
use yella.Spool.Culling.{cull_lem}
use yella.Spool.Faults.{push_after_failed_partition, pop_after_eof}
use yella.Spool.Samples.{
  sound, no_opens, sound-IsHealthy, at, id_bytes, one_event, two_parts, one, two_files, behind,
  one-Holds,
}

abbrev ops : List Op
ops = push two_parts ∷ push ((1 ∷ []) ∷ [] ∷ []) ∷ pop ∷ pop ∷ pop ∷ []

create_spool_refines_example :
    (s : Spool) × (create_spool sound 100 4 [] ≡ some (some s))
    × (run sound s ops
        ≡ (no_error, [])
          ∷ (no_error, [])
          ∷ (no_error, two_parts)
          ∷ (no_error, (1 ∷ []) ∷ [] ∷ [])
          ∷ (timed_out, [])
          ∷ [])
unfolding run_queue cost encode_event encode_parts encode_part bytes_of part_size
create_spool_refines_example =
    create_spool_refines sound 100 4 ops sound-IsHealthy
      (
        ((omega arith, (omega arith, tt)), omega arith),
        (((omega arith, (omega arith, (omega arith, tt))), omega arith), tt),
      )
      (omega arith) (omega arith) (omega arith) (omega arith)

run_refines_example :
    run sound one (pop ∷ push two_parts ∷ pop ∷ pop ∷ [])
    ≡ (no_error, two_parts) ∷ (no_error, []) ∷ (no_error, two_parts) ∷ (timed_out, []) ∷ []
unfolding run_queue cost encode_event encode_parts encode_part bytes_of part_size
run_refines_example =
    run_refines sound sound-IsHealthy (pop ∷ push two_parts ∷ pop ∷ pop ∷ []) one (two_parts ∷ [])
      one-Holds (((omega arith, (omega arith, tt)), omega arith), tt)

spool_pop_returns_example :
    let (rc, parts, s') = spool_pop sound 1 quiet one in
    (rc ≡ no_error) × (parts ≡ two_parts) × Popped one s' (id_bytes ++ one_event) 8 two_parts []
unfolding encode_event encode_parts encode_part bytes_of part_size contents compare_write_to_read
spool_pop_returns_example =
    spool_pop_returns sound sound-IsHealthy 1 quiet one (id_bytes ++ one_event) 8 [] two_parts []
      refl refl refl refl tt (omega arith, (omega arith, tt)) (omega arith) (omega arith)

spool_push_appends_example :
    let (rc, s') = spool_push sound one two_parts in
    (rc ≡ no_error) × Pushed one s' (encode_event 1 two_parts)
unfolding encode_event encode_parts encode_part bytes_of part_size
spool_push_appends_example =
    spool_push_appends sound sound-IsHealthy one 16 two_parts refl (omega arith) (omega arith)
      (omega arith) (omega arith)

advance_lem_example :
    (advance sound 1 one (some (seek 8))
      ≡ (found 1 (seek 10), record one { readf = some (seek 10) }))
    × (drop 10 (read_bytes one) ≡ encode_parts two_parts ++ [])
unfolding encode_event encode_parts encode_part bytes_of part_size contents
advance_lem_example =
    advance_lem sound one 1 8 [] two_parts [] tt (omega arith, (omega arith, tt)) (omega arith) refl

find_oldest_file_least_example :
    ((p : Pos)
      → (find_oldest_file (at 2 1) two_files).1 ≡ some p
      → Present p two_files × (pos_ltb (at 2 1) p ≡ true) × All (NoneBetween (at 2 1) p) two_files)
    × ((find_oldest_file (at 2 1) two_files).1 ≡ none
        → All (NoneBetween (at 2 1) last_pos) two_files)
find_oldest_file_least_example = find_oldest_file_least (at 2 1) two_files

cull_lem_example :
    let (rc, s') = cull sound behind in
    (rc ≡ no_error)
    × (s'.dir ≡ remove_file two_files (at 2 2))
    × (pos_ltb (at 2 1) (at 2 2) ≡ true)
    × ((q : Pos) → pos_eq (at 2 2) q ≡ false → contents s'.dir q ≡ contents two_files q)
    × (contents s'.dir (at 2 1) ≡ contents two_files (at 2 1))
    × (s'.stats.current_size ≡ 8)
    × (s'.stats.bytes_culled ≡ 8)
    × (s'.stats.files_destroyed ≡ 1)
    × (s'.stats.cull_events ≡ 1)
unfolding find_oldest_file find_file cmp_oldest spool_pos_of is_spool_file value_of read_at contents
cull_lem_example = cull_lem sound behind (at 2 2) refl refl

push_after_failed_partition_example :
    let (rc, s') = spool_push no_opens (record one { writef = some 100 }) two_parts in
    (rc ≡ file_system_error) × ((spool_push no_opens s' two_parts).0 ≡ crash)
push_after_failed_partition_example =
    push_after_failed_partition no_opens (record one { writef = some 100 }) 100 two_parts two_parts
      refl (omega arith) refl

-- The reader came to the end of the file before the event was written.
abbrev stale : Spool
stale = record one { readf = some (record { off = 8; eof = true }) }

pop_after_eof_example :
    let (rc, _, s') = spool_pop sound 1 quiet stale in
    (rc ≡ crash) × (s'.dir ≡ remove_file stale.dir (at 1 1))
unfolding find_oldest_file find_file cmp_oldest remove_file
pop_after_eof_example =
    pop_after_eof sound 0 8 16 quiet stale refl refl refl (omega arith) (omega arith) refl refl
