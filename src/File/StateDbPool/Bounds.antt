-- ===== src/File/StateDbPool/Bounds.antt =====
-- How many databases the pool keeps open (agent/plugin/file/state_db_pool.c).
use yella.Prelude.{
  ℕ, suc, ◌+◌, ◌-◌, ◌%◌, ◌^◌, ◌≤◌, ◌<◌, ◌≡◌, refl, ap, ◌∙◌, arith, List, [], ◌∷◌, Option, none,
  some, inl, inr, leb, max, length, Bool-cases, Option-cases, Text, ==_iff, ◌==◌,
}
use yella.Sglib.Tree.{TreeOps, TreeLaws}
use yella.File.StateDbPool.{
  Node, Pool, oldest_of, create_state_db_pool, close_oldest, make_room, add_created,
  get_state_db_from_pool, remove_state_db_from_pool,
}
use yella.File.StateDbPool.Lru.{IsPool, close_oldest_lem, add_created_lem, get_miss, make_room_full}

-- What is asked of the pool: `get` with the result of `create_state_db` and the time.
pub data Op (D : Type 0) : Type 0 where
  get : Text → Option D → ℕ → Op D
  remove : Text → Op D

module _ {T D : Type 0} (ops : TreeOps T (Node D)) where
  unfoldable pub step : ℕ → Pool T → Op D → Pool T
  step max_dbs pool (get name created now) =
      (get_state_db_from_pool ops pool name max_dbs created now).1
  step max_dbs pool (remove name) = remove_state_db_from_pool ops pool name

  unfoldable pub run : ℕ → Pool T → List (Op D) → Pool T
  run max_dbs pool [] = pool
  run max_dbs pool (o ∷ os) = run max_dbs (step max_dbs pool o) os

  module _ (laws : TreeLaws ops) (max_dbs : ℕ) where
    -- The pool is consistent and has at most the databases that it may have, or one.
    abbrev pub IsBounded : Pool T → Type 0
    IsBounded pool = IsPool ops laws pool × (pool.count ≤ max max_dbs 1)

    empty_close :
        (pool : Pool T) → IsPool ops laws pool → pool.count ≡ 0 → close_oldest ops pool ≡ pool
    unfolding close_oldest oldest_of
    empty_close pool is none_there = go (ops.iterate pool.nodes) refl
      where
        go :
            (ns : List (Text × Node D)) → ops.iterate pool.nodes ≡ ns → close_oldest ops pool ≡ pool
        go [] e = rw (e, close_oldest, oldest_of) refl
        go (n ∷ ns) e =
            let size : pool.count ≡ suc (length ns) = is.1 ∙ ap length e in absurd (omega arith)

    make_room_lem :
        (pool : Pool T) (name : Text)
        → IsBounded pool
        → ops.find pool.nodes name ≡ none
        → let pool' = make_room ops pool max_dbs in
          IsPool ops laws pool'
          × (pool'.count + 1 ≤ max max_dbs 1)
          × (ops.find pool'.nodes name ≡ none)
    unfolding make_room
    make_room_lem pool name is absent = elim (Bool-cases (leb max_dbs pool.count)) [
      | inr room ↦
          (let same : make_room ops pool max_dbs ≡ pool = rw (room, make_room) refl in
            rw same (is.0, ground (arith, room), absent))
      | inl full ↦ elim (Bool-cases (pool.count == 0)) [
        | inl none_there ↦
            (let zero_count = (==_iff pool.count 0).0 none_there in
              let same =
                make_room_full ops laws pool max_dbs (ground arith)
                ∙ empty_close pool is.0 zero_count in
              rw same (is.0, omega arith, absent))
        | inr some_there ↦
            (let (victim, v, there, oldest, closed, is') =
                close_oldest_lem ops laws pool is.0 (ground arith) in
              let smaller : (close_oldest ops pool).count ≡ pool.count - 1 =
                ap (λ p. p.count) closed in
              let gone = laws.find-delete pool.nodes victim name is.0.0 in
              let still_absent : ops.find (close_oldest ops pool).nodes name ≡ none =
                rw closed (ground (arith, gone, absent)) in
              rw (make_room_full ops laws pool max_dbs (ground arith))
                (is', ground (arith, smaller), still_absent))
      ]
    ]

    get_hit :
        (pool : Pool T) (name : Text) (created : Option D) (now : ℕ) (n : Node D)
        → ops.find pool.nodes name ≡ some n
        → get_state_db_from_pool ops pool name max_dbs created now ≡ (
          some n.db,
          record pool { nodes = ops.set pool.nodes name (record n { time_last_used = now }) },
        )
    unfolding get_state_db_from_pool
    get_hit pool name created now n there = rw (there, get_state_db_from_pool) refl

    added-IsBounded :
        (pool : Pool T) (name : Text) (created : Option D) (now : ℕ)
        → max_dbs < 2 ^ 62
        → IsPool ops laws pool
        → pool.count + 1 ≤ max max_dbs 1
        → ops.find pool.nodes name ≡ none
        → IsBounded (add_created ops pool name created now).1
    unfolding add_created
    added-IsBounded pool name none now few is room absent = (is, omega arith)
    added-IsBounded pool name (some db) now few is room absent =
        let (got, is', count, finds) =
          add_created_lem ops laws pool name db now is absent (omega arith) in
        (is', omega (arith, count))

    get-IsBounded :
        (pool : Pool T) (name : Text) (created : Option D) (now : ℕ)
        → max_dbs < 2 ^ 62
        → IsBounded pool
        → IsBounded (get_state_db_from_pool ops pool name max_dbs created now).1
    get-IsBounded pool name created now few is = elim (Option-cases (ops.find pool.nodes name)) [
      | inr (n, there) ↦
          (let touched : Node D = record n { time_last_used = now } in
            rw (get_hit pool name created now n there) (
              (
                laws.set-IsTree pool.nodes name touched is.0.0,
                omega (arith, laws.length-set pool.nodes name touched is.0.0, is.0.1),
                is.0.2,
              ),
              is.1,
            ))
      | inl absent ↦
          (let (is', room, absent') = make_room_lem pool name is absent in
            rw (get_miss ops laws pool name max_dbs now created absent)
              (added-IsBounded (make_room ops pool max_dbs) name created now few is' room absent'))
    ]

    remove-IsBounded :
        (pool : Pool T) (name : Text)
        → IsBounded pool
        → IsBounded (remove_state_db_from_pool ops pool name)
    unfolding remove_state_db_from_pool
    remove-IsBounded pool name is = elim (Option-cases (ops.find pool.nodes name)) [
      | inl absent ↦
          (let same : remove_state_db_from_pool ops pool name ≡ pool =
              rw (absent, remove_state_db_from_pool) refl in
            rw same is)
      | inr (n, there) ↦
          (let fewer = laws.length-delete pool.nodes name n is.0.0 there in
            let result : remove_state_db_from_pool ops pool name ≡ record {
              nodes = ops.delete pool.nodes name;
              count = (pool.count + 2 ^ 64 - 1) % 2 ^ 64;
            } =
              rw (there, remove_state_db_from_pool) refl in
            rw result (
              (
                laws.delete-IsTree pool.nodes name is.0.0,
                omega (arith, fewer, is.0.1),
                omega (arith, fewer, is.0.1),
              ),
              omega (arith, fewer, is.0.1, is.1),
            ))
    ]

    step-IsBounded :
        (pool : Pool T) (o : Op D)
        → max_dbs < 2 ^ 62
        → IsBounded pool
        → IsBounded (step max_dbs pool o)
    unfolding step
    step-IsBounded pool (get name created now) few is = get-IsBounded pool name created now few is
    step-IsBounded pool (remove name) few is = remove-IsBounded pool name is

    run_from-IsBounded :
        (os : List (Op D)) (pool : Pool T)
        → max_dbs < 2 ^ 62
        → IsBounded pool
        → IsBounded (run max_dbs pool os)
    unfolding run
    run_from-IsBounded [] pool few is = is
    run_from-IsBounded (o ∷ os) pool few is =
        run_from-IsBounded os (step max_dbs pool o) few (step-IsBounded pool o few is)

    -- After any gets and removals from a new pool on, whether databases could be created or not,
    -- the nodes are a tree, the count is their number, and it is at most the setting max-spool-dbs,
    -- or one where the setting is zero; the setting is below 2^62.
    pub run-IsBounded :
        (os : List (Op D))
        → max_dbs < 2 ^ 62
        → IsBounded (run max_dbs (create_state_db_pool ops) os)
    unfolding create_state_db_pool
    run-IsBounded os few =
        run_from-IsBounded os (create_state_db_pool ops) few
          ((laws.empty-IsTree, rw (laws.iterate-empty) refl, omega arith), omega arith)
