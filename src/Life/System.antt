-- ===== src/Life/System.antt =====
-- The steps of the system: submissions, the start of a run, the run itself, and the sweep at the start of
-- the process.
use dost_review_api.Prelude.{◌≡◌, Option, List}
use dost_review_api.Models.{Uuid, DostReview}
use dost_review_api.Review.{Row}
use dost_review_api.Gate.Profiles.{Refusal}
use dost_review_api.Gate as Gate
use dost_review_api.Batch.Database.{Db}
use dost_review_api.Batch.Engine as Engine
use dost_review_api.Batch.Runner.{
  RunnerEnv, sweep_stale_batches, start_batch, run_batch_to_completion,
}

abbrev pub with_reviews : Db → List Row → Db
with_reviews db rows = record db { reviews = rows }

-- What the database may become. A submission either is alone (`gate_and_store` of app/gate.py, while no
-- other transaction commits), or it has passed its duplicate check and then waits for its lock, while the
-- system takes other steps, of which the result of the check knows nothing. `trigger` and the scheduler
-- call `start_batch`, and then `run_batch_to_completion`, which other steps may precede. The run itself is
-- one step.
pub data Reaches (db : Db) : Db → Type 0 where
  here : Reaches db db
  submits :
      {s : Db}
      → Reaches db s
      → (settings : Gate.Settings) (env : Gate.Env) (review : DostReview) (event_id : Option Uuid)
      → env.others s.reviews ≡ s.reviews
      → Reaches db (with_reviews s (Gate.gate_and_store settings env review event_id s.reviews).1)
  admits :
      {s : Db}
      → Reaches db s
      → (settings : Gate.Settings) (env : Gate.Env) (review : DostReview) (event_id : Option Uuid)
      → (profile_error : Option Refusal)
      → Reaches db
          (with_reviews s (Gate.admit settings env review event_id profile_error s.reviews).1)
  starts :
      {s : Db}
      → Reaches db s
      → (renv : RunnerEnv) (fresh : Uuid) → Reaches db (start_batch renv fresh s).1
  completes :
      {s : Db}
      → Reaches db s
      → (settings : Engine.Settings) (env : Engine.Env) (renv : RunnerEnv) (id : Uuid)
      → Reaches db (run_batch_to_completion settings env renv id s).1
  sweeps : {s : Db} → Reaches db s → (renv : RunnerEnv) → Reaches db (sweep_stale_batches renv s).1
