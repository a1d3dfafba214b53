-- ===== src/Life/Run.antt =====
-- What the start of a run, its end and the sweep do to a review.
use dost_review_api.Prelude.{
  ◌≡◌, refl, subst, Option, none, some, List, [], ◌∷◌, if◌then◌else◌, Bool-cases, inl, inr,
}
use dost_review_api.Models.{Uuid}
use dost_review_api.Review.{Row}
use dost_review_api.Batch.Database.{BatchRun, RunStatus, RunReport, Db}
use dost_review_api.Batch.Engine.{Settings, Env, Work, Ended, finished, raised, run_batch}
use dost_review_api.Batch.Runner.{
  RunnerEnv, requeue, stale_ids, requeue_raises, sweep_stale_batches, start_given,
  start_unless_running, start_swept, start_batch, record_end, on_failure, finish_run,
  run_batch_to_completion, is_running, find_run,
}
use dost_review_api.Batch.Ids.{unique-ids, run_batch-ids}
use dost_review_api.Life.Laws.{Kept, Kept-refl, Kept-trans}
use dost_review_api.Life.Claimed.{requeue-Kept, run_batch-Life}

pub run_batch-Kept :
    (settings : Settings) (env : Env) (batch_id : Uuid) (db : Db)
    → Kept db.reviews (run_batch settings env batch_id db).1.db.reviews
run_batch-Kept settings env batch_id db u = (
  unique-ids db.reviews (run_batch settings env batch_id db).1.db.reviews
      (run_batch-ids settings env batch_id db) u,
  (λ k. run_batch-Life settings env batch_id db k u),
)

pub sweep-Kept :
    (renv : RunnerEnv) (db : Db) → Kept db.reviews (sweep_stale_batches renv db).1.reviews
unfolding sweep_stale_batches
sweep-Kept renv db = elim (Bool-cases (requeue_raises renv (stale_ids renv db.runs))) [
  | inl fails ↦ rw fails (Kept-refl db.reviews)
  | inr goes_on ↦ rw goes_on (requeue-Kept (stale_ids renv db.runs) db.reviews)
]

start_given-reviews :
    (renv : RunnerEnv) (fresh : Uuid) (db : Db) (o : Option BatchRun)
    → (start_given renv fresh db o).2.reviews ≡ db.reviews
unfolding start_given
start_given-reviews renv fresh db none = refl
start_given-reviews renv fresh db (some b) = refl

start_swept-reviews :
    (renv : RunnerEnv) (fresh : Uuid) (swept : Ended × Db)
    → (start_swept renv fresh swept).1.reviews ≡ swept.1.reviews
unfolding start_swept start_unless_running
start_swept-reviews renv fresh (raised, db) = refl
start_swept-reviews renv fresh (finished, db) =
    start_given-reviews renv fresh db (find_run (λ b. is_running b.status) db.runs)

pub start-Kept :
    (renv : RunnerEnv) (fresh : Uuid) (db : Db)
    → Kept db.reviews (start_batch renv fresh db).1.reviews
unfolding start_batch
start-Kept renv fresh db =
    rw (start_swept-reviews renv fresh (sweep_stale_batches renv db)) (sweep-Kept renv db)

on_failure-Kept :
    (renv : RunnerEnv) (id : Uuid) (db : Db) → Kept db.reviews (on_failure renv id db).reviews
unfolding on_failure record_end
on_failure-Kept renv id db =
    let marked : Db =
      if renv.mark_failed_fails
      then db
      else record_end id RunStatus.failed RunReport.error renv.now db in
    let same : marked.reviews ≡ db.reviews = elim (Bool-cases renv.mark_failed_fails) [
      | inl e ↦ rw e refl
      | inr e ↦ rw e refl
    ] in
    elim (Bool-cases renv.requeue_fails) [
      | inl fails ↦ rw fails (rw same (Kept-refl db.reviews))
      | inr goes_on ↦ rw goes_on (
          subst (λ (rows : List Row). Kept rows (requeue (id ∷ []) marked.reviews)) same
            (requeue-Kept (id ∷ []) marked.reviews))
    ]

pub finish-Kept :
    (renv : RunnerEnv) (id : Uuid) (r : Ended × Work)
    → Kept r.1.db.reviews (finish_run renv id r).1.reviews
unfolding finish_run record_end on_failure
finish-Kept renv id (raised, w) = on_failure-Kept renv id w.db
finish-Kept renv id (finished, w) = elim (Bool-cases renv.finish_fails) [
  | inl fails ↦ rw fails (on_failure-Kept renv id w.db)
  | inr ends ↦ rw ends (Kept-refl w.db.reviews)
]

pub complete-Kept :
    (settings : Settings) (env : Env) (renv : RunnerEnv) (id : Uuid) (db : Db)
    → Kept db.reviews (run_batch_to_completion settings env renv id db).1.reviews
unfolding run_batch_to_completion
complete-Kept settings env renv id db =
    Kept-trans db.reviews (run_batch settings env id db).1.db.reviews _
      (run_batch-Kept settings env id db) (finish-Kept renv id (run_batch settings env id db))
