-- ===== src/Batch/Orphans.antt =====
-- Every review in PROCESSING belongs to a run that is RUNNING, so that a sweep can find it.
use dost_review_api.Prelude.{
  ◌==◌, ◌≡◌, refl, Bool, true, false, ◌&&◌, Option, some, none, List, [], ◌∷◌, arith, any, keep,
  All, Bool-cases, inl, inr,
}
use dost_review_api.Models.{Uuid}
use dost_review_api.Review.{Row, is_processing}
use dost_review_api.Batch.Database.{BatchRun, Db, elem}
use dost_review_api.Batch.Engine.{Ended, finished, raised}
use dost_review_api.Batch.Updates.{All-update, All-mono}
use dost_review_api.Batch.Runner.{
  RunnerEnv, is_running, update_runs, in_batches, back_to_gated, requeue, is_stale, close_stale,
  run_ids, stale_ids, requeue_raises, sweep_stale_batches, new_run, find_run, start_given,
  start_swept, start_unless_running, start_batch,
}

-- Some run of this id is RUNNING.
unfoldable pub runs_on : Uuid → List BatchRun → Bool
runs_on b runs = any (λ r. is_running r.status && r.id == b) runs

-- The review, if it is in PROCESSING, has a RUNNING run.
abbrev pub is_owned : List BatchRun → Option Uuid → Bool
is_owned runs none = false
is_owned runs (some b) = runs_on b runs

abbrev pub HasNoOrphans : Db → Type 0
HasNoOrphans db =
    All (λ r. is_processing r.status ≡ true → is_owned db.runs r.batch_id ≡ true) db.reviews

-- A run that a statement on `batch_run` does not meet goes on.
runs_on-update :
    (p : BatchRun → Bool) (f : BatchRun → BatchRun) (b : Uuid) (runs : List BatchRun)
    → elem b (run_ids (keep p runs)) ≡ false
    → runs_on b runs ≡ true
    → runs_on b (update_runs p f runs) ≡ true
unfolding runs_on update_runs elem
runs_on-update p f b [] h on = on
runs_on-update p f b (r ∷ runs) h on = elim (Bool-cases (p r)) [
  | inl met ↦ rw met (ground (arith, runs_on-update p f b runs))
  | inr other ↦ rw other (ground (arith, runs_on-update p f b runs))
]

pub still_owned :
    (p : BatchRun → Bool) (f : BatchRun → BatchRun) (runs : List BatchRun) (batch_id : Option Uuid)
    → in_batches (run_ids (keep p runs)) batch_id ≡ false
    → is_owned runs batch_id ≡ true
    → is_owned (update_runs p f runs) batch_id ≡ true
unfolding in_batches
still_owned p f runs none out on = on
still_owned p f runs (some b) out on = runs_on-update p f b runs out on

-- Closing some runs and requeueing their reviews leaves no orphan.
pub close-HasNoOrphans :
    (p : BatchRun → Bool) (f : BatchRun → BatchRun) (runs : List BatchRun) (rows : List Row)
    → All (λ r. is_processing r.status ≡ true → is_owned runs r.batch_id ≡ true) rows
    → All
        (λ r. is_processing r.status ≡ true → is_owned (update_runs p f runs) r.batch_id ≡ true)
        (requeue (run_ids (keep p runs)) rows)
unfolding requeue back_to_gated
close-HasNoOrphans p f runs rows =
    let ids = run_ids (keep p runs) in
    All-update (λ r. is_processing r.status ≡ true → is_owned runs r.batch_id ≡ true)
      (λ r. is_processing r.status ≡ true → is_owned (update_runs p f runs) r.batch_id ≡ true)
      (λ r. is_processing r.status && in_batches ids r.batch_id) back_to_gated rows
      (λ r owned. elim (Bool-cases (is_processing r.status && in_batches ids r.batch_id)) [
        | inl met ↦ rw met (λ e. absurd (ground arith))
        | inr other ↦ rw other (λ e. still_owned p f runs r.batch_id (ground (arith, e)) (owned e))
      ])

-- No run goes on once all that are RUNNING have been closed as stale.
none_on :
    (env : RunnerEnv) (b : Uuid) (runs : List BatchRun)
    → All (λ b. is_running b.status ≡ true → is_stale env b ≡ true) runs
    → runs_on b (update_runs (is_stale env) (close_stale env.now) runs) ≡ false
unfolding runs_on update_runs close_stale
none_on env b [] dead = refl
none_on env b (r ∷ runs) dead = elim (Bool-cases (is_stale env r)) [
  | inl met ↦ rw met (none_on env b runs dead.1)
  | inr other ↦ rw other (ground (arith, dead.0, none_on env b runs dead.1))
]

none_owned :
    (env : RunnerEnv) (runs : List BatchRun) (o : Option Uuid)
    → All (λ b. is_running b.status ≡ true → is_stale env b ≡ true) runs
    → is_owned (update_runs (is_stale env) (close_stale env.now) runs) o ≡ false
none_owned env runs none dead = refl
none_owned env runs (some b) dead = none_on env b runs dead

pub requeue-goes :
    (env : RunnerEnv) (ids : List Uuid)
    → env.sweep_requeue_fails ≡ false
    → requeue_raises env ids ≡ false
unfolding requeue_raises
requeue-goes env [] ok = refl
requeue-goes env (id ∷ ids) ok = ok

module _ (env : RunnerEnv) (db : Db)
    (goes : requeue_raises env (stale_ids env db.runs) ≡ false) where
  pub swept-eq : sweep_stale_batches env db ≡ (
    finished,
    record db {
      runs = update_runs (is_stale env) (close_stale env.now) db.runs;
      reviews = requeue (stale_ids env db.runs) db.reviews;
    },
  )
  unfolding sweep_stale_batches
  swept-eq = ground arith

module _ (env : RunnerEnv) (db : Db) (ok : env.sweep_requeue_fails ≡ false) where
  pub sweep-eq : sweep_stale_batches env db ≡ (
    finished,
    record db {
      runs = update_runs (is_stale env) (close_stale env.now) db.runs;
      reviews = requeue (stale_ids env db.runs) db.reviews;
    },
  )
  sweep-eq = swept-eq env db (requeue-goes env (stale_ids env db.runs) ok)

  -- Where every review in PROCESSING belongs to a RUNNING run, this still holds after a sweep whose
  -- statements both go through.
  pub sweep-HasNoOrphans : HasNoOrphans db → HasNoOrphans (sweep_stale_batches env db).1
  unfolding stale_ids
  sweep-HasNoOrphans h =
      rw sweep-eq (close-HasNoOrphans (is_stale env) (close_stale env.now) db.runs db.reviews h)

-- Where every review in PROCESSING belongs to a RUNNING run and every RUNNING run is stale, as after
-- a crash, a sweep whose requeue does not raise leaves no review in PROCESSING.
module _ (env : RunnerEnv) (db : Db)
    (goes : requeue_raises env (stale_ids env db.runs) ≡ false) where
  pub sweep_clears :
      HasNoOrphans db
      → All (λ b. is_running b.status ≡ true → is_stale env b ≡ true) db.runs
      → All (λ r. is_processing r.status ≡ false) (sweep_stale_batches env db).1.reviews
  unfolding stale_ids
  sweep_clears h dead = rw (swept-eq env db goes) (
      All-mono
        (λ r.
          is_processing r.status ≡ true
          → is_owned (update_runs (is_stale env) (close_stale env.now) db.runs) r.batch_id ≡ true)
        (λ r. is_processing r.status ≡ false) (requeue (stale_ids env db.runs) db.reviews)
        (λ r owned. elim (Bool-cases (is_processing r.status)) [
          | inl busy ↦ absurd (cc (owned busy, none_owned env db.runs r.batch_id dead))
          | inr idle ↦ idle
        ])
        (close-HasNoOrphans (is_stale env) (close_stale env.now) db.runs db.reviews h))

owned-start :
    (env : RunnerEnv) (fresh : Uuid) (runs : List BatchRun) (batch_id : Option Uuid)
    → is_owned runs batch_id ≡ true
    → is_owned (new_run fresh env.now ∷ runs) batch_id ≡ true
unfolding runs_on new_run
owned-start env fresh runs none h = h
owned-start env fresh runs (some b) h = ground arith

start_given-HasNoOrphans :
    (env : RunnerEnv) (fresh : Uuid) (db : Db) (o : Option BatchRun)
    → HasNoOrphans db
    → HasNoOrphans (start_given env fresh db o).2
unfolding start_given
start_given-HasNoOrphans env fresh db (some b) h = h
start_given-HasNoOrphans env fresh db none h =
    All-mono (λ r. is_processing r.status ≡ true → is_owned db.runs r.batch_id ≡ true)
      (λ r.
        is_processing r.status ≡ true
        → is_owned (new_run fresh env.now ∷ db.runs) r.batch_id ≡ true)
      db.reviews (λ r owned busy. owned-start env fresh db.runs r.batch_id (owned busy)) h

-- Where every review in PROCESSING belongs to a RUNNING run, this still holds after `start_batch`,
-- unless the requeue of its sweep raises.
pub start-HasNoOrphans :
    (env : RunnerEnv) (fresh : Uuid) (db : Db)
    → env.sweep_requeue_fails ≡ false
    → HasNoOrphans db
    → HasNoOrphans (start_batch env fresh db).1
unfolding start_batch start_swept start_unless_running
start-HasNoOrphans env fresh db ok h =
    go (sweep_stale_batches env db) (sweep-HasNoOrphans env db ok h)
  where
    go : (r : Ended × Db) → HasNoOrphans r.1 → HasNoOrphans (start_swept env fresh r).1
    go (raised, db') h' = h'
    go (finished, db') h' =
        start_given-HasNoOrphans env fresh db' (find_run (λ b. is_running b.status) db'.runs) h'
