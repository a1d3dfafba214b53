-- ===== src/Batch/Runner.antt =====
-- app/batch_runner.py: starting a run, finishing it, and the sweep of stale runs. Also the outcomes that
-- app/routes/batch.py and app/scheduler.py derive from them.
use dost_review_api.Prelude.{
  ℕ, ◌+◌, ◌==◌, Bool, true, false, ◌&&◌, Option, none, some, List, [], ◌∷◌, map, keep, ltb,
  if◌then◌else◌,
}
use dost_review_api.Models.{Uuid, Instant}
use dost_review_api.Review.{Row, gated, is_processing, update_where}
use dost_review_api.Batch.Database.{
  RunStatus, running, completed, failed, RunReport, counted, stale, error, BatchRun, Db, elem,
}
use dost_review_api.Batch.Engine.{Settings, Env, Ended, finished, raised, Work, run_batch}

-- What the runner meets. `stale_after` is `stale_batch_after_minutes` as a length of time.
pub record RunnerEnv : Type 0 where
  pub now : Instant
  pub stale_after : ℕ
  pub sweep_requeue_fails : Bool
  pub finish_fails : Bool
  pub mark_failed_fails : Bool
  pub requeue_fails : Bool

abbrev pub is_running : RunStatus → Bool
is_running running = true
is_running _ = false

unfoldable pub update_runs :
    (BatchRun → Bool) → (BatchRun → BatchRun) → List BatchRun → List BatchRun
update_runs p f [] = []
update_runs p f (b ∷ runs) = (if p b then f b else b) ∷ update_runs p f runs

unfoldable pub find_run : (BatchRun → Bool) → List BatchRun → Option BatchRun
find_run p [] = none
find_run p (b ∷ runs) = if p b then some b else find_run p runs

-- `batch_id = ANY($1)`.
unfoldable pub in_batches : List Uuid → Option Uuid → Bool
in_batches ids none = false
in_batches ids (some b) = elem b ids

unfoldable pub back_to_gated : Row → Row
back_to_gated r = record r { status = gated }

-- `UPDATE review SET status = 'GATED' WHERE status = 'PROCESSING' AND batch_id = ANY($1)`.
unfoldable pub requeue : List Uuid → List Row → List Row
requeue ids rows =
    update_where (λ r. is_processing r.status && in_batches ids r.batch_id) back_to_gated rows

-- `started_at < NOW() - make_interval(...)`, with the subtraction on the other side.
unfoldable pub is_stale : RunnerEnv → BatchRun → Bool
is_stale env b = is_running b.status && ltb (b.started_at + env.stale_after) env.now

unfoldable pub close_stale : Instant → BatchRun → BatchRun
close_stale now b = record b { status = failed; stats = some stale; completed_at = some now }

abbrev pub run_ids : List BatchRun → List Uuid
run_ids runs = map (λ b. b.id) runs

unfoldable pub stale_ids : RunnerEnv → List BatchRun → List Uuid
stale_ids env runs = run_ids (keep (is_stale env) runs)

-- `if stale:` and the exception of the requeue under it.
unfoldable pub requeue_raises : RunnerEnv → List Uuid → Bool
requeue_raises env [] = false
requeue_raises env (id ∷ ids) = env.sweep_requeue_fails

-- `sweep_stale_batches`: two statements, of which the second, run if the first has closed a run, may
-- raise when the first has been committed. Of no ids the requeue changes nothing.
unfoldable pub sweep_stale_batches : RunnerEnv → Db → Ended × Db
sweep_stale_batches env db =
    let ids = stale_ids env db.runs in
    let closed = record db { runs = update_runs (is_stale env) (close_stale env.now) db.runs } in
    if requeue_raises env ids
    then (raised, closed)
    else (finished, record closed { reviews = requeue ids db.reviews })

unfoldable pub new_run : Uuid → Instant → BatchRun
new_run id now = record {
  id = id;
  status = running;
  stats = none;
  started_at = now;
  completed_at = none;
}

-- The transaction of `start_batch`, serialized by its lock. `fresh` is what `uuid4` returns. The results
-- are the id of the run and whether it was started.
unfoldable pub start_given : RunnerEnv → Uuid → Db → Option BatchRun → Uuid × Bool × Db
start_given env fresh db (some b) = (b.id, false, db)
start_given env fresh db none = (fresh, true, record db { runs = new_run fresh env.now ∷ db.runs })

unfoldable pub start_unless_running : RunnerEnv → Uuid → Db → Uuid × Bool × Db
start_unless_running env fresh db =
    start_given env fresh db (find_run (λ b. is_running b.status) db.runs)

-- `start_batch`; `none` where the sweep raises.
unfoldable pub start_swept : RunnerEnv → Uuid → Ended × Db → Option (Uuid × Bool) × Db
start_swept env fresh (raised, db) = (none, db)
start_swept env fresh (finished, db) =
    let (id, started, db') = start_unless_running env fresh db in (some (id, started), db')

unfoldable pub start_batch : RunnerEnv → Uuid → Db → Option (Uuid × Bool) × Db
start_batch env fresh db = start_swept env fresh (sweep_stale_batches env db)

unfoldable pub has_run_id : Uuid → BatchRun → Bool
has_run_id k b = b.id == k

unfoldable pub close_run : RunStatus → RunReport → Instant → BatchRun → BatchRun
close_run status report now b = record b {
  status = status;
  stats = some report;
  completed_at = some now;
}

unfoldable pub record_end : Uuid → RunStatus → RunReport → Instant → Db → Db
record_end id status report now db = record db {
  runs = update_runs (has_run_id id) (close_run status report now) db.runs;
}

-- The `except` of `run_batch_to_completion`: two statements, each with a `try` of its own.
unfoldable pub on_failure : RunnerEnv → Uuid → Db → Db
on_failure env id db =
    let marked = if env.mark_failed_fails then db else record_end id failed error env.now db in
    if env.requeue_fails
    then marked
    else record marked { reviews = requeue (id ∷ []) marked.reviews }

unfoldable pub finish_run : RunnerEnv → Uuid → Ended × Work → RunStatus × Db
finish_run env id (raised, w) = (failed, on_failure env id w.db)
finish_run env id (finished, w) =
    if env.finish_fails
    then (failed, on_failure env id w.db)
    else (completed, record_end id completed (counted w.stats) env.now w.db)

-- `run_batch_to_completion`.
unfoldable pub run_batch_to_completion : Settings → Env → RunnerEnv → Uuid → Db → RunStatus × Db
run_batch_to_completion settings env renv id db = finish_run renv id (run_batch settings env id db)

-- The status that `execute_batch` reports.
pub data Executed : Type 0 where
  already_running : Executed
  ran : RunStatus → Executed

unfoldable pub after_start :
    Settings → Env → RunnerEnv → Option (Uuid × Bool) × Db → Option (Uuid × Executed) × Db
after_start settings env renv (none, db) = (none, db)
after_start settings env renv (some (id, false), db) = (some (id, already_running), db)
after_start settings env renv (some (id, true), db) =
    let (status, db') = run_batch_to_completion settings env renv id db in
    (some (id, ran status), db')

-- `execute_batch`; `none` where the start raises.
unfoldable pub execute_batch :
    Settings → Env → RunnerEnv → Uuid → Db → Option (Uuid × Executed) × Db
execute_batch settings env renv fresh db = after_start settings env renv (start_batch renv fresh db)

-- `POST /batch/trigger`: 202 with the run, which then runs in the background, or 409.
pub data Triggered : Type 0 where
  accepted : Uuid → Triggered
  conflict : Uuid → Triggered
  server_error : Triggered

unfoldable pub trigger_batch : RunnerEnv → Uuid → Db → Triggered × Db
trigger_batch env fresh db =
    let (r, db') = start_batch env fresh db in
    elim r [
      | none ↦ (server_error, db')
      | some (id, started) ↦ (if started then accepted id else conflict id, db')
    ]

-- `GET /batch/status/{batch_id}`; `none` is a 404.
unfoldable pub batch_status : Uuid → Db → Option BatchRun
batch_status id db = find_run (has_run_id id) db.runs
