-- ===== src/Batch/Runs.antt =====
-- A whole run orphans no review, and a run that dies half-way leaves its reviews to the next sweep.
use dost_review_api.Prelude.{
  ◌==◌, eq_iff, ◌≡◌, refl, true, false, ◌&&◌, ◌||◌, Option, some, none, List, [], ◌∷◌, arith, keep,
  All, Bool-cases, inl, inr, if◌then◌else◌,
}
use dost_review_api.Models.{Uuid}
use dost_review_api.Review.{Row, is_processing, in_batch}
use dost_review_api.Batch.Database.{RunStatus, completed, failed, RunReport, BatchRun, Db, elem}
use dost_review_api.Batch.Engine.{Settings, Env, Work, Ended, finished, raised, run_batch}
use dost_review_api.Batch.Updates.{All-update, All-mono, All-both}
use dost_review_api.Batch.Held.{IsSettled}
use dost_review_api.Batch.Taken.{IsFresh}
use dost_review_api.Batch.Settled.{run_batch-IsSettled}
use dost_review_api.Batch.Runner.{
  RunnerEnv, update_runs, in_batches, back_to_gated, requeue, run_ids, has_run_id, close_run,
  record_end, on_failure, finish_run, run_batch_to_completion,
}
use dost_review_api.Batch.Orphans.{is_owned, HasNoOrphans, still_owned}
use dost_review_api.Batch.Accounted.{IsAccounted, run_batch-Accounted}

-- The review, if it is in PROCESSING, is under another run, which is RUNNING.
abbrev IsElsewhere : Uuid → List BatchRun → Row → Type 0
IsElsewhere id runs r =
    is_processing r.status ≡ true
    → (is_owned runs r.batch_id ≡ true) × (in_batch id r.batch_id ≡ false)

elem-own_runs :
    (id b : Uuid) (runs : List BatchRun)
    → (b == id) ≡ false
    → elem b (run_ids (keep (has_run_id id) runs)) ≡ false
unfolding has_run_id elem
elem-own_runs id b [] ne = refl
elem-own_runs id b (r ∷ runs) ne =
    ground (arith, elem-own_runs id b runs ne, eq_iff r.id id, eq_iff r.id b, eq_iff b id)

in_batches-own_runs :
    (id : Uuid) (batch_id : Option Uuid) (runs : List BatchRun)
    → in_batch id batch_id ≡ false
    → in_batches (run_ids (keep (has_run_id id) runs)) batch_id ≡ false
unfolding in_batches
in_batches-own_runs id none runs h = refl
in_batches-own_runs id (some b) runs h = elem-own_runs id b runs h

elsewhere :
    (id : Uuid) (runs : List BatchRun) (batch_id : Option Uuid)
    → (is_owned runs batch_id || in_batch id batch_id) ≡ true
    → in_batches (id ∷ []) batch_id ≡ false
    → (is_owned runs batch_id ≡ true) × (in_batch id batch_id ≡ false)
unfolding in_batches elem
elsewhere id runs none h out = ground arith
elsewhere id runs (some b) h out = ground (arith, eq_iff b id, eq_iff id b)

module _ (renv : RunnerEnv) (id : Uuid) where
  end-HasNoOrphans :
      (status : RunStatus) (report : RunReport) (db : Db)
      → All (IsElsewhere id db.runs) db.reviews
      → HasNoOrphans (record_end id status report renv.now db)
  unfolding record_end
  end-HasNoOrphans status report db =
      All-mono (IsElsewhere id db.runs)
        (λ r.
          is_processing r.status ≡ true
          → is_owned (update_runs (has_run_id id) (close_run status report renv.now) db.runs)
              r.batch_id
            ≡ true)
        db.reviews
        (λ r h busy.
          still_owned (has_run_id id) (close_run status report renv.now) db.runs r.batch_id
            (in_batches-own_runs id r.batch_id db.runs (h busy).1) (h busy).0)

  requeue-IsElsewhere :
      (runs : List BatchRun) (rows : List Row)
      → All (IsAccounted id runs) rows
      → All (IsElsewhere id runs) (requeue (id ∷ []) rows)
  unfolding requeue back_to_gated
  requeue-IsElsewhere runs rows =
      All-update (IsAccounted id runs) (IsElsewhere id runs)
        (λ r. is_processing r.status && in_batches (id ∷ []) r.batch_id) back_to_gated rows
        (λ r h. elim (Bool-cases (is_processing r.status && in_batches (id ∷ []) r.batch_id)) [
          | inl met ↦ rw met (λ busy. absurd (ground arith))
          | inr other ↦
              rw other (λ busy. elsewhere id runs r.batch_id (h busy) (ground (arith, busy)))
        ])

  elsewhere_no_orphans : (db : Db) → All (IsElsewhere id db.runs) db.reviews → HasNoOrphans db
  elsewhere_no_orphans db =
      All-mono (IsElsewhere id db.runs)
        (λ r. is_processing r.status ≡ true → is_owned db.runs r.batch_id ≡ true) db.reviews
        (λ r h busy. (h busy).0)

  on_failure-eq :
      (db : Db)
      → renv.requeue_fails ≡ false
      → let requeued = record db { reviews = requeue (id ∷ []) db.reviews } in
        on_failure renv id db ≡ (
          if renv.mark_failed_fails
          then requeued
          else record_end id failed RunReport.error renv.now requeued)
  unfolding on_failure record_end
  on_failure-eq db ok = ground arith

  failure-HasNoOrphans :
      (db : Db)
      → renv.requeue_fails ≡ false
      → All (IsAccounted id db.runs) db.reviews
      → HasNoOrphans (on_failure renv id db)
  failure-HasNoOrphans db ok h =
      let requeued : Db = record db { reviews = requeue (id ∷ []) db.reviews } in
      let free = requeue-IsElsewhere db.runs db.reviews h in
      rw (on_failure-eq db ok) (elim (Bool-cases renv.mark_failed_fails) [
        | inl unmarked ↦ rw unmarked (elsewhere_no_orphans requeued free)
        | inr marked ↦ rw marked (end-HasNoOrphans failed RunReport.error requeued free)
      ])

  pub finish-HasNoOrphans :
      (r : Ended × Work)
      → renv.requeue_fails ≡ false
      → All (IsAccounted id r.1.db.runs) r.1.db.reviews
      → (r.0 ≡ finished → IsSettled id r.1.db.reviews)
      → HasNoOrphans (finish_run renv id r).1
  unfolding finish_run
  finish-HasNoOrphans (raised, w) ok h settled = failure-HasNoOrphans w.db ok h
  finish-HasNoOrphans (finished, w) ok h settled = elim (Bool-cases renv.finish_fails) [
    | inl stops ↦ simp stops (failure-HasNoOrphans w.db ok h)
    | inr goes_on ↦ rw goes_on (
        end-HasNoOrphans completed (RunReport.counted w.stats) w.db (
          All-mono
            (λ r.
              IsAccounted id w.db.runs r
              × ((is_processing r.status && in_batch id r.batch_id) ≡ false))
            (IsElsewhere id w.db.runs) w.db.reviews (λ r both busy. ground (arith, both.0 busy))
            (All-both (IsAccounted id w.db.runs)
              (λ r. (is_processing r.status && in_batch id r.batch_id) ≡ false) w.db.reviews h
              (settled refl))))
  ]

-- A run under a new id, however it ends, orphans no review, as long as the requeue of its failure path
-- goes through: every review in PROCESSING still belongs to a RUNNING run.
pub run-HasNoOrphans :
    (settings : Settings) (env : Env) (renv : RunnerEnv) (id : Uuid) (db : Db)
    → renv.requeue_fails ≡ false
    → IsFresh id db.reviews
    → HasNoOrphans db
    → HasNoOrphans (run_batch_to_completion settings env renv id db).1
unfolding run_batch_to_completion
run-HasNoOrphans settings env renv id db ok fresh h =
    let accounted = run_batch-Accounted settings env id db h in
    finish-HasNoOrphans renv id (run_batch settings env id db) ok (rw accounted.1 accounted.0)
      (run_batch-IsSettled settings env id db fresh)
