-- ===== src/Batch/Day.antt =====
-- One daily run by `execute_batch`, when no run is going on.
use dost_review_api.Prelude.{
  ℕ, suc, eq_refl, ◌≡◌, refl, true, false, Option, none, some, List, [], ◌∷◌, arith, All,
  Bool-cases, inl, inr,
}
use dost_review_api.Models.{Uuid, Instant}
use dost_review_api.Review.{Row, update_where}
use dost_review_api.Batch.Database.{completed, RunReport, counted, BatchRun, Db, elem}
use dost_review_api.Batch.Engine.{
  Settings, Env, Ended, Work, finished, raised, in_except, run_batch,
}
use dost_review_api.Batch.Runner.{
  RunnerEnv, requeue_raises, is_running, update_runs, find_run, in_batches, requeue, is_stale,
  close_stale, stale_ids, sweep_stale_batches, new_run, start_given, start_unless_running,
  start_swept, start_batch, has_run_id, close_run, record_end, finish_run, run_batch_to_completion,
  after_start, execute_batch,
}
use dost_review_api.Batch.Counts.{run_batch-ends}
use dost_review_api.Batch.Ids.{run_batch-runs}
use dost_review_api.Batch.Drain.{Ready, Healthy, after-Ready}

abbrev pub IsIdle : List BatchRun → Type 0
IsIdle = All (λ b. is_running b.status ≡ false)

-- What one day brings: the calls of the run, those of the runner, and the id that `uuid4` returns.
pub record Day : Type 0 where
  pub env : Env
  pub runner : RunnerEnv
  pub fresh : Uuid

unfoldable pub run_daily : Settings → List Day → Db → Db
run_daily settings [] db = db
run_daily settings (d ∷ days) db =
    run_daily settings days (execute_batch settings d.env d.runner d.fresh db).1

-- A day on which nothing of the runner raises and the run is healthy.
abbrev pub IsHealthy : Day → Type 0
IsHealthy d =
    Healthy d.env × (d.runner.sweep_requeue_fails ≡ false) × (d.runner.finish_fails ≡ false)

idle-closed :
    (renv : RunnerEnv) (runs : List BatchRun)
    → IsIdle runs
    → update_runs (is_stale renv) (close_stale renv.now) runs ≡ runs
unfolding update_runs is_stale
idle-closed renv [] h = refl
idle-closed renv (b ∷ runs) h = ground (arith, h.0, idle-closed renv runs h.1)

idle-stale : (renv : RunnerEnv) (runs : List BatchRun) → IsIdle runs → stale_ids renv runs ≡ []
unfolding stale_ids is_stale
idle-stale renv [] h = refl
idle-stale renv (b ∷ runs) h = ground (arith, h.0, idle-stale renv runs h.1)

idle-none : (runs : List BatchRun) → IsIdle runs → find_run (λ b. is_running b.status) runs ≡ none
unfolding find_run
idle-none [] h = refl
idle-none (b ∷ runs) h = ground (arith, h.0, idle-none runs h.1)

in_batches-none : (b : Option Uuid) → in_batches [] b ≡ false
unfolding in_batches elem
in_batches-none none = refl
in_batches-none (some b) = refl

requeue-none : (rows : List Row) → requeue [] rows ≡ rows
unfolding requeue update_where
requeue-none [] = refl
requeue-none (r ∷ rows) = ground (arith, in_batches-none r.batch_id, requeue-none rows)

closed-IsIdle :
    (id : Uuid) (report : RunReport) (now : Instant) (runs : List BatchRun)
    → IsIdle runs
    → IsIdle (update_runs (has_run_id id) (close_run completed report now) runs)
unfolding update_runs close_run
closed-IsIdle id report now [] h = tt
closed-IsIdle id report now (b ∷ runs) h = elim (Bool-cases (has_run_id id b)) [
  | inl e ↦ rw e (refl, closed-IsIdle id report now runs h.1)
  | inr e ↦ rw e (h.0, closed-IsIdle id report now runs h.1)
]

new-IsIdle :
    (id : Uuid) (report : RunReport) (now start : Instant) (runs : List BatchRun)
    → IsIdle runs
    → IsIdle
        (update_runs (has_run_id id) (close_run completed report now) (new_run id start ∷ runs))
unfolding update_runs has_run_id new_run
new-IsIdle id report now start runs h =
    rw (eq_refl id) (unfold close_run in refl, closed-IsIdle id report now runs h)

finish_completed :
    (renv : RunnerEnv) (id : Uuid) (r : Ended × Work)
    → r.0 ≡ finished
    → renv.finish_fails ≡ false
    → finish_run renv id r
      ≡ (completed, record_end id completed (counted r.1.stats) renv.now r.1.db)
unfolding finish_run
finish_completed renv id (finished, w) e h = rw h refl
finish_completed renv id (raised, w) e h = cc

module _ (settings : Settings) (d : Day) (db : Db) (healthy : IsHealthy d)
    (idle : IsIdle db.runs) where
  abbrev started : Db
  started = record db { runs = new_run d.fresh d.runner.now ∷ db.runs }

  abbrev worked : Work
  worked = (run_batch settings d.env d.fresh started).1

  sweep_idle : sweep_stale_batches d.runner db ≡ (finished, db)
  unfolding sweep_stale_batches requeue_raises
  sweep_idle =
      rw (idle-closed d.runner db.runs idle, idle-stale d.runner db.runs idle, requeue-none) refl

  start_idle : start_batch d.runner d.fresh db ≡ (some (d.fresh, true), started)
  unfolding start_batch start_swept start_unless_running start_given
  start_idle = rw (sweep_idle, idle-none db.runs idle) refl

  ends : (run_batch settings d.env d.fresh started).0 ≡ finished
  ends =
      run_batch-ends settings d.env d.fresh started healthy.0.0 healthy.0.1 (healthy.0.3 in_except)

  execute_batch-idle :
      (execute_batch settings d.env d.runner d.fresh db).1
      ≡ record_end d.fresh completed (counted worked.stats) d.runner.now worked.db
  unfolding execute_batch after_start run_batch_to_completion
  execute_batch-idle =
      rw
        (
          start_idle,
          finish_completed d.runner d.fresh (run_batch settings d.env d.fresh started) ends
              healthy.2,
        )
        refl

  pub day-IsIdle : IsIdle (execute_batch settings d.env d.runner d.fresh db).1.runs
  day-IsIdle = rw execute_batch-idle (
      unfold record_end in
      rw (run_batch-runs settings d.env d.fresh started)
        (new-IsIdle d.fresh (counted worked.stats) d.runner.now d.runner.now db.runs idle))

  pub day-Ready :
      (i : ℕ)
      → Ready settings i db.reviews
      → Ready settings (suc i) (execute_batch settings d.env d.runner d.fresh db).1.reviews
  day-Ready i ready =
      rw execute_batch-idle
        (unfold record_end in after-Ready settings d.env d.fresh started i healthy.0 ready)
