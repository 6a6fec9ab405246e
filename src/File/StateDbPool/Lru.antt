-- ===== src/File/StateDbPool/Lru.antt =====
-- Which databases the pool keeps open (agent/plugin/file/state_db_pool.c).
use yella.Prelude.{
  ℕ, ◌+◌, ◌-◌, ◌%◌, ◌^◌, ◌≤◌, ◌<◌, ◌≡◌, refl, ap, ◌∙◌, arith, List, [], ◌∷◌, Option, none, some,
  inl, inr, ltb, if◌then◌else◌, length, All, Bool-cases, Text, text_eq,
}
use yella.Sglib.Tree.{TreeOps, TreeLaws}
use yella.File.StateDbPool.{
  Node, Pool, oldest_of, close_oldest, make_room, add_created, get_state_db_from_pool,
}

abbrev pub NotBefore : {D : Type 0} → ℕ → Text × Node D → Type 0
NotBefore t n = t ≤ n.1.time_last_used

-- What the loop ends at: a node that it started with or came by, none of which is older.
oldest_of_lem :
    {D : Type 0} (P : Text × Node D → Type 0) (o : Text × Node D) (ns : List (Text × Node D))
    → P o
    → All P ns
    → (r : Text × Node D) × (oldest_of (some o) ns ≡ some r)
      × P r
      × (r.1.time_last_used ≤ o.1.time_last_used)
      × All (NotBefore r.1.time_last_used) ns
unfolding oldest_of
oldest_of_lem P o [] h all = (o, refl, h, omega arith, tt)
oldest_of_lem P o (n ∷ ns) h all = elim (Bool-cases (ltb n.1.time_last_used o.1.time_last_used)) [
  | inl older ↦
      (let (r, e, p, first, rest) = oldest_of_lem P n ns all.0 all.1 in
        (r, rw older e, p, ground arith, (first, rest)))
  | inr newer ↦
      (let (r, e, p, first, rest) = oldest_of_lem P o ns h all.1 in
        (r, rw newer e, p, first, (ground arith, rest)))
]

-- From no node at all, if there is one.
oldest_of-some :
    {D : Type 0} (P : Text × Node D → Type 0) (ns : List (Text × Node D))
    → 0 < length ns
    → All P ns
    → (r : Text × Node D) × (oldest_of none ns ≡ some r)
      × P r
      × All (NotBefore r.1.time_last_used) ns
unfolding oldest_of
oldest_of-some P [] h all = absurd (omega arith)
oldest_of-some P (n ∷ ns) h all =
    let (r, e, p, first, rest) = oldest_of_lem P n ns all.0 all.1 in (r, e, p, (first, rest))

module _ {T D : Type 0} (ops : TreeOps T (Node D)) (laws : TreeLaws ops) where
  -- The nodes make a tree, and the count is their number.
  abbrev pub IsPool : Pool T → Type 0
  IsPool pool =
      laws.IsTree pool.nodes
      × (pool.count ≡ length (ops.iterate pool.nodes))
      × (pool.count < 2 ^ 63)

  -- A full pool makes room by closing the database that was used the longest ago.
  pub close_oldest_lem :
      (pool : Pool T)
      → IsPool pool
      → 0 < pool.count
      → (victim : Text) × (v : Node D) × (ops.find pool.nodes victim ≡ some v)
        × All (NotBefore v.time_last_used) (ops.iterate pool.nodes)
        × (close_oldest ops pool
            ≡ record { nodes = ops.delete pool.nodes victim; count = pool.count - 1 })
        × IsPool (close_oldest ops pool)
  unfolding close_oldest
  close_oldest_lem pool (tree, counted, few) some_there =
      let (r, e, p, oldest) =
        oldest_of-some (λ n. ops.find pool.nodes n.0 ≡ some n.1) (ops.iterate pool.nodes)
          (omega arith) (laws.iterate-find pool.nodes tree) in
      let fewer = laws.length-delete pool.nodes r.0 r.1 tree p in
      let one_less : (pool.count + 2 ^ 64 - 1) % 2 ^ 64 ≡ pool.count - 1 = omega arith in
      let closed : close_oldest ops pool
          ≡ record { nodes = ops.delete pool.nodes r.0; count = pool.count - 1 } =
        rw (e, close_oldest)
          (ap (λ (c : ℕ). record { nodes = ops.delete pool.nodes r.0; count = c }) one_less) in
      (
        r.0,
        r.1,
        p,
        oldest,
        closed,
        rw closed (laws.delete-IsTree pool.nodes r.0 tree, omega arith, omega arith),
      )

  -- What the pool has with one more database, which just was used.
  pub add_created_lem :
      (pool : Pool T) (name : Text) (db : D) (now : ℕ)
      → IsPool pool
      → ops.find pool.nodes name ≡ none
      → pool.count + 1 < 2 ^ 63
      → let (got, pool') = add_created ops pool name (some db) now in
        (got ≡ some db)
        × IsPool pool'
        × (pool'.count ≡ pool.count + 1)
        × ((q : Text)
            → ops.find pool'.nodes q ≡ (
                if text_eq q name
                then some (record { db = db; time_last_used = now })
                else ops.find pool.nodes q))
  unfolding add_created
  add_created_lem pool name db now (tree, counted, few) absent room =
      let n : Node D = record { db = db; time_last_used = now } in
      let more = laws.length-add pool.nodes name n tree absent in
      let sum : (pool.count + 1) % 2 ^ 64 ≡ pool.count + 1 = omega arith in
      (
        refl,
        (laws.add-IsTree pool.nodes name n tree absent, omega (arith, more, counted), omega arith),
        sum,
        λ q. laws.find-add pool.nodes name n q tree absent,
      )

  pub get_miss :
      (pool : Pool T) (name : Text) (max_dbs now : ℕ) (created : Option D)
      → ops.find pool.nodes name ≡ none
      → get_state_db_from_pool ops pool name max_dbs created now
        ≡ add_created ops (make_room ops pool max_dbs) name created now
  unfolding get_state_db_from_pool
  get_miss pool name max_dbs now created absent = rw (absent, get_state_db_from_pool) refl

  pub make_room_full :
      (pool : Pool T) (max_dbs : ℕ)
      → max_dbs ≤ pool.count
      → make_room ops pool max_dbs ≡ close_oldest ops pool
  unfolding make_room
  make_room_full pool max_dbs full = ground arith

  -- A database that is not open, in a full pool: the one that was used the longest ago, as no open
  -- one was used before it, is closed, the new one is open and used now, and every other one is as
  -- before, and the pool has as many.
  pub get_full_lem :
      (pool : Pool T) (name : Text) (max_dbs now : ℕ) (db : D)
      → IsPool pool
      → ops.find pool.nodes name ≡ none
      → max_dbs ≤ pool.count
      → 0 < pool.count
      → let (got, pool') = get_state_db_from_pool ops pool name max_dbs (some db) now in
        (got ≡ some db)
        × IsPool pool'
        × (pool'.count ≡ pool.count)
        × ((victim : Text) × (v : Node D) × (ops.find pool.nodes victim ≡ some v)
            × All (NotBefore v.time_last_used) (ops.iterate pool.nodes)
            × ((q : Text)
                → ops.find pool'.nodes q ≡ (
                    if text_eq q name
                    then some (record { db = db; time_last_used = now })
                    else if text_eq q victim
                    then none
                    else ops.find pool.nodes q)))
  get_full_lem pool name max_dbs now db is absent full some_there =
      let (victim, v, there, oldest, closed, is') = close_oldest_lem pool is some_there in
      let gone = laws.find-delete pool.nodes victim in
      let still_absent : ops.find (close_oldest ops pool).nodes name ≡ none =
        rw closed (ground (arith, gone name is.0, absent)) in
      let smaller : (close_oldest ops pool).count ≡ pool.count - 1 = ap (λ p. p.count) closed in
      let (got, is'', count, finds) =
        add_created_lem (close_oldest ops pool) name db now is' still_absent
          (omega (arith, smaller, is.2)) in
      let new : Option (Node D) = some (record { db = db; time_last_used = now }) in
      rw (get_miss pool name max_dbs now (some db) absent, make_room_full pool max_dbs full)
        (
          got,
          is'',
          omega (arith, count, smaller),
          (
            victim,
            v,
            there,
            oldest,
            λ q.
                finds q
                ∙ ap (λ t. if text_eq q name then new else t)
                    (ap (λ p. ops.find p.nodes q) closed ∙ gone q is.0),
          ),
        )
