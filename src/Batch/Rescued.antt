-- ===== src/Batch/Rescued.antt =====
-- app/batch_runner.py: what a sweep does to the reviews of runs that have died.
use dost_review_api.Prelude.{
  ◌≡◌, refl, true, false, ◌&&◌, Option, some, none, List, [], ◌∷◌, arith, All, if◌then◌else◌,
}
use dost_review_api.Models.{Uuid}
use dost_review_api.Review.{Row, gated, is_processing, find}
use dost_review_api.Batch.Chosen.{find-update}
use dost_review_api.Batch.Database.{BatchRun, Db, elem}
use dost_review_api.Batch.Runner.{
  RunnerEnv, is_running, in_batches, back_to_gated, requeue, is_stale, stale_ids, requeue_raises,
  sweep_stale_batches,
}
use dost_review_api.Batch.Orphans.{runs_on, is_owned, HasNoOrphans, swept-eq}

-- A row in PROCESSING as a row to be taken again, all else as it was; any other row.
abbrev pub rescued_row : Row → Row
rescued_row r = if is_processing r.status then record r { status = gated } else r

find-All :
    (P : Row → Type 0) (k : Uuid) (rows : List Row) (r : Row)
    → All P rows
    → find k rows ≡ some r
    → P r
unfolding find
find-All P k [] r all e = cc
find-All P k (x ∷ rows) r all e = ground (arith, find-All P k rows r all.1, all.0)

on-stale :
    (env : RunnerEnv) (b : Uuid) (runs : List BatchRun)
    → All (λ b. is_running b.status ≡ true → is_stale env b ≡ true) runs
    → runs_on b runs ≡ true
    → elem b (stale_ids env runs) ≡ true
unfolding runs_on stale_ids elem
on-stale env b [] dead on = on
on-stale env b (r ∷ runs) dead on = ground (arith, dead.0, on-stale env b runs dead.1)

owned-stale :
    (env : RunnerEnv) (runs : List BatchRun) (o : Option Uuid)
    → All (λ b. is_running b.status ≡ true → is_stale env b ≡ true) runs
    → is_owned runs o ≡ true
    → in_batches (stale_ids env runs) o ≡ true
unfolding in_batches
owned-stale env runs none dead on = on
owned-stale env runs (some b) dead on = on-stale env b runs dead on

-- Where every review in PROCESSING belongs to a RUNNING run and every RUNNING run is stale, as after a
-- crash, a sweep that ends makes each review in PROCESSING GATED again, with all its other columns as
-- they were, and leaves the other reviews alone.
pub sweep-find :
    (env : RunnerEnv) (db : Db) (k : Uuid) (r : Row)
    → requeue_raises env (stale_ids env db.runs) ≡ false
    → HasNoOrphans db
    → All (λ b. is_running b.status ≡ true → is_stale env b ≡ true) db.runs
    → find k db.reviews ≡ some r
    → find k (sweep_stale_batches env db).1.reviews ≡ some (rescued_row r)
unfolding requeue back_to_gated
sweep-find env db k r goes owned dead found =
    let met = owned-stale env db.runs r.batch_id dead in
    let mine = find-All _ k db.reviews r owned found in
    rw (swept-eq env db goes) (
      ground (
        arith,
        found,
        met,
        mine,
        find-update (λ r. is_processing r.status && in_batches (stale_ids env db.runs) r.batch_id)
            back_to_gated (λ r. refl) k db.reviews,
      ))
