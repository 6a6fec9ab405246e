-- ===== src/File/StateDbPool.antt =====
-- The open state databases (agent/plugin/file/state_db_pool.c).
use yella.Prelude.{
  ℕ, ◌+◌, ◌-◌, ◌%◌, ◌^◌, Bool, true, false, List, [], ◌∷◌, Option, none, some, ltb, leb,
  if◌then◌else◌, Text,
}
use yella.Sglib.Tree.{TreeOps}
pub mod Lru
pub mod Bounds
mod Tests

-- `state_db_node` but for its name, the key, and the links. A database is of a type `D`.
pub record Node (D : Type 0) : Type 0 where
  pub db : D
  pub time_last_used : ℕ

-- `struct state_db_pool`
pub record Pool (T : Type 0) : Type 0 where
  pub nodes : T
  pub count : ℕ

-- The loop that looks for the node that was used the longest ago; of several, the first.
unfoldable pub oldest_of :
    {D : Type 0} → Option (Text × Node D) → List (Text × Node D) → Option (Text × Node D)
oldest_of oldest [] = oldest
oldest_of none (node ∷ nodes) = oldest_of (some node) nodes
oldest_of (some oldest) (node ∷ nodes) =
    if ltb node.1.time_last_used oldest.1.time_last_used
    then oldest_of (some node) nodes
    else oldest_of (some oldest) nodes

module _ {T D : Type 0} (ops : TreeOps T (Node D)) where
  unfoldable pub create_state_db_pool : Pool T
  create_state_db_pool = record { nodes = ops.empty; count = 0 }

  -- The oldest database is closed, if there is one.
  unfoldable pub close_oldest : Pool T → Pool T
  close_oldest pool = elim (oldest_of none (ops.iterate pool.nodes)) [
    | none ↦ pool
    | some oldest ↦ record {
      nodes = ops.delete pool.nodes oldest.0;
      count = (pool.count + 2 ^ 64 - 1) % 2 ^ 64;
    }
  ]

  unfoldable pub make_room : Pool T → ℕ → Pool T
  make_room pool max_dbs = if leb max_dbs pool.count then close_oldest pool else pool

  -- The database that `create_state_db` made, if it made one, joins the pool.
  unfoldable pub add_created : Pool T → Text → Option D → ℕ → Option D × Pool T
  add_created pool config_name none now = (none, pool)
  add_created pool config_name (some db) now = (
    some db,
    record {
      nodes = ops.add pool.nodes config_name (record { db = db; time_last_used = now });
      count = (pool.count + 1) % 2 ^ 64;
    },
  )

  -- `get_state_db_from_pool`, where `max_dbs` is the setting max-spool-dbs, `created` what
  -- `create_state_db` returns for the name, if it is asked, and `now` what `ucal_getNow` returns.
  unfoldable pub get_state_db_from_pool : Pool T → Text → ℕ → Option D → ℕ → Option D × Pool T
  get_state_db_from_pool pool config_name max_dbs created now =
      elim (ops.find pool.nodes config_name) [
        | none ↦ add_created (make_room pool max_dbs) config_name created now
        | some found ↦ (
          some found.db,
          record pool {
            nodes = ops.set pool.nodes config_name (record found { time_last_used = now });
          },
        )
      ]

  unfoldable pub remove_state_db_from_pool : Pool T → Text → Pool T
  remove_state_db_from_pool pool config_name = elim (ops.find pool.nodes config_name) [
    | none ↦ pool
    | some removed ↦ record {
      nodes = ops.delete pool.nodes config_name;
      count = (pool.count + 2 ^ 64 - 1) % 2 ^ 64;
    }
  ]

  unfoldable pub state_db_pool_size : Pool T → ℕ
  state_db_pool_size pool = pool.count
