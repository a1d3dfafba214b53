-- ===== src/App/Pools.antt =====
-- app/database.py, and the two routes of app/routes/health.py that ask for the pool. The driver asyncpg
-- is outside the program: whether it connects, closes and answers is a parameter.
use Prim.Native.Nat.{Ordering}
use Prim.Native.String.{compare}
use dost_review_api.Prelude.{
  ℕ, String, Bool, true, false, Option, none, some, List, [], ◌∷◌, if◌then◌else◌,
}
use dost_review_api.Batch.Engine.{Ended, finished, raised}

-- A pool, by what it was created with; `command_timeout` in milliseconds.
pub record Pool : Type 0 where
  pub dsn : String
  pub min_size : ℕ
  pub max_size : ℕ
  pub command_timeout : Option ℕ
  pub read_only : Bool

-- The module's `_pool` and `_onboard_pool`.
pub record Pools : Type 0 where
  pub pool : Option Pool
  pub onboard_pool : Option Pool

-- `asyncpg.create_pool`, `Pool.close` and `SELECT 1`, where `false` is an exception.
pub record Driver : Type 0 where
  pub connects : Pool → Bool
  pub closes : Pool → Bool
  pub answers : Pool → Bool

abbrev pub no_pools : Pools
no_pools = record { pool = none; onboard_pool = none }

unfoldable pub primary_pool : String → Pool
primary_pool dsn = record {
  dsn = dsn;
  min_size = 2;
  max_size = 10;
  command_timeout = none;
  read_only = false;
}

unfoldable pub lookup_pool : String → Option ℕ → Pool
lookup_pool dsn timeout = record {
  dsn = dsn;
  min_size = 1;
  max_size = 3;
  command_timeout = timeout;
  read_only = true;
}

-- `create_pool`: an exception comes before the assignment.
unfoldable pub create_pool : Driver → String → Pools → Ended × Pools
create_pool driver dsn pools =
    if driver.connects (primary_pool dsn)
    then (finished, record pools { pool = some (primary_pool dsn) })
    else (raised, pools)

unfoldable pub create_onboard_pool : Driver → String → Option ℕ → Pools → Ended × Pools
create_onboard_pool driver dsn timeout pools =
    if driver.connects (lookup_pool dsn timeout)
    then (finished, record pools { onboard_pool = some (lookup_pool dsn timeout) })
    else (raised, pools)

-- `close_onboard_pool`, on what the variable holds.
unfoldable pub close_onboard : Driver → Option Pool → Pools → Ended × Pools
close_onboard driver none pools = (finished, pools)
close_onboard driver (some p) pools =
    if driver.closes p then (finished, record pools { onboard_pool = none }) else (raised, pools)

unfoldable pub close_onboard_pool : Driver → Pools → Ended × Pools
close_onboard_pool driver pools = close_onboard driver pools.onboard_pool pools

-- The first half of `close_pool`.
unfoldable pub close_primary : Driver → Option Pool → Pools → Ended × Pools
close_primary driver none pools = (finished, pools)
close_primary driver (some p) pools =
    if driver.closes p then (finished, record pools { pool = none }) else (raised, pools)

unfoldable pub unless_raised : (Pools → Ended × Pools) → Ended × Pools → Ended × Pools
unless_raised next (finished, pools) = next pools
unless_raised next (raised, pools) = (raised, pools)

-- `close_pool`: its second half is that of `close_onboard_pool`.
unfoldable pub close_pool : Driver → Pools → Ended × Pools
close_pool driver pools =
    unless_raised (close_onboard_pool driver) (close_primary driver pools.pool pools)

-- `get_pool`; `none` is the RuntimeError.
unfoldable pub get_pool : Pools → Option Pool
get_pool pools = pools.pool

unfoldable pub get_onboard_pool : Pools → Option Pool
get_onboard_pool pools = pools.onboard_pool

-- A migration: its file name, and what the execution of its text does to the database, or an exception.
pub record SqlFile {ℓ} (D : Type ℓ) : Type ℓ where
  pub name : String
  pub execute : D → Option D

module _ {ℓ} {D : Type ℓ} where
  -- `sorted`.
  unfoldable pub insert_by_name : SqlFile D → List (SqlFile D) → List (SqlFile D)
  insert_by_name f [] = f ∷ []
  insert_by_name f (g ∷ files) = elim (compare f.name g.name) [
    | Ordering.gt ↦ g ∷ insert_by_name f files
    | _ ↦ f ∷ g ∷ files
  ]

  unfoldable pub sort_by_name : List (SqlFile D) → List (SqlFile D)
  sort_by_name [] = []
  sort_by_name (f ∷ files) = insert_by_name f (sort_by_name files)

  -- The loop. A file that raises leaves it, with the files before it executed.
  unfoldable pub execute_all : List (SqlFile D) → D → Ended × D
  execute_all [] db = (finished, db)
  execute_all (f ∷ files) db = elim (f.execute db) [
    | none ↦ (raised, db)
    | some after ↦ execute_all files after
  ]

  -- `run_migrations`, on the files of the directory.
  unfoldable pub run_migrations : List (SqlFile D) → D → Ended × D
  run_migrations files db = execute_all (sort_by_name files) db

-- `GET /health` is constant; `ready` says whether the answer is 200 or 503.
unfoldable pub answers_query : Driver → Option Pool → Bool
answers_query driver none = false
answers_query driver (some p) = driver.answers p

unfoldable pub health : ℕ
health = 200

unfoldable pub ready : Driver → Pools → ℕ
ready driver pools = if answers_query driver (get_pool pools) then 200 else 503
