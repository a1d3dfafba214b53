-- ===== src/Life/Woven/Safe.antt =====
-- What submissions, sweeps and starts do to the reviews that runs own.
use dost_review_api.Prelude.{◌≡◌, refl, true, false, Option, none, some, List, [], ◌∷◌, All, arith}
use dost_review_api.Models.{Uuid}
use dost_review_api.Review.{Row, is_processing}
use dost_review_api.Batch.Database.{BatchRun, Db}
use dost_review_api.Batch.Engine.{Ended, finished, raised}
use dost_review_api.Batch.Held.{is_held}
use dost_review_api.Batch.Orphans.{
  is_owned, HasNoOrphans, sweep-HasNoOrphans, start-HasNoOrphans, sweep-eq,
}
use dost_review_api.Batch.Runner.{
  RunnerEnv, is_running, find_run, stale_ids, start_given, start_swept, start_unless_running,
  start_batch, sweep_stale_batches,
}
use dost_review_api.Batch.Updates.{All-mono}
use dost_review_api.Life.System.{with_reviews}
use dost_review_api.Life.Woven.{started, Active, with_started}
use dost_review_api.Life.Woven.Arrivals.{requeue-All}
use dost_review_api.Life.Woven.Fits.{idle-runs_on}
use dost_review_api.Life.Woven.Owned.{
  is_left, IsOwned, HoldsLeft, Owns, left-SparesIdle, IsOwned-SparesIdle,
}

abbrev pub Safe : Db → List Active → Type 0
Safe db runs = HasNoOrphans db × All (Owns db) runs

Owns-rows :
    (db db' : Db) (runs : List Active)
    → ((a : Active) → Owns db a → Owns db' a)
    → All (Owns db) runs
    → All (Owns db') runs
Owns-rows db db' [] keeps own = tt
Owns-rows db db' (a ∷ runs) keeps own = (keeps a own.0, Owns-rows db db' runs keeps own.1)

pub Safe-rows :
    (db : Db) (rows : List Row) (runs : List Active)
    → ((P : Row → Type 0)
        → ((r : Row) → is_processing r.status ≡ false → P r)
        → All P db.reviews
        → All P rows)
    → Safe db runs
    → Safe (with_reviews db rows) runs
Safe-rows db rows runs keeps (h, own) = (
  keeps (IsOwned db.runs) (IsOwned-SparesIdle db.runs) h,
  Owns-rows db (with_reviews db rows) runs
      (λ a. keeps (λ r. is_held a.id r ≡ true → is_left a.phase r.id ≡ true) (left-SparesIdle a))
      own,
)

module _ (renv : RunnerEnv) (ok : renv.sweep_requeue_fails ≡ false) where
  swept-Owns : (db : Db) (a : Active) → Owns db a → Owns (sweep_stale_batches renv db).1 a
  swept-Owns db a own = rw (sweep-eq renv db ok) (
      requeue-All (λ r. is_held a.id r ≡ true → is_left a.phase r.id ≡ true) (left-SparesIdle a)
        (stale_ids renv db.runs) db.reviews own)

  pub sweep-Safe :
      (db : Db) (runs : List Active) → Safe db runs → Safe (sweep_stale_batches renv db).1 runs
  sweep-Safe db runs (h, own) = (
    sweep-HasNoOrphans renv db ok h,
    Owns-rows db (sweep_stale_batches renv db).1 runs (swept-Owns db) own,
  )

  -- With no RUNNING run, nothing is PROCESSING.
  not_owned :
      (runs : List BatchRun) (o : Option Uuid)
      → find_run (λ b. is_running b.status) runs ≡ none
      → is_owned runs o ≡ false
  not_owned runs none idle = refl
  not_owned runs (some b) idle = idle-runs_on b runs idle

  idle-Owns :
      (fresh : Uuid) (db : Db)
      → find_run (λ b. is_running b.status) db.runs ≡ none
      → HasNoOrphans db
      → HoldsLeft fresh started db.reviews
  idle-Owns fresh db idle =
      All-mono (IsOwned db.runs) (λ r. is_held fresh r ≡ true → false ≡ true) db.reviews
        (λ r owned held.
          absurd (cc (owned (ground (arith, held)), not_owned db.runs r.batch_id idle)))

  given-Owns :
      (fresh : Uuid) (db : Db) (runs : List Active) (o : Option BatchRun)
      → find_run (λ b. is_running b.status) db.runs ≡ o
      → Safe db runs
      → All (Owns (start_given renv fresh db o).2) (
          with_started
            (some ((start_given renv fresh db o).0, (start_given renv fresh db o).1))
            runs)
  unfolding start_given with_started
  given-Owns fresh db runs (some b) e (h, own) = own
  given-Owns fresh db runs none e (h, own) =
      (idle-Owns fresh db e h, Owns-rows db (start_given renv fresh db none).2 runs (λ a o. o) own)

  started-Owns :
      (fresh : Uuid) (swept : Ended × Db) (runs : List Active)
      → Safe swept.1 runs
      → All
          (Owns (start_swept renv fresh swept).1)
          (with_started (start_swept renv fresh swept).0 runs)
  unfolding start_swept start_unless_running with_started
  started-Owns fresh (raised, db) runs safe = safe.1
  started-Owns fresh (finished, db) runs safe =
      given-Owns fresh db runs (find_run (λ b. is_running b.status) db.runs) refl safe

  pub start-Safe :
      (fresh : Uuid) (db : Db) (runs : List Active)
      → Safe db runs
      → Safe (start_batch renv fresh db).1 (with_started (start_batch renv fresh db).0 runs)
  start-Safe fresh db runs safe = (
    start-HasNoOrphans renv fresh db ok safe.0,
    (unfold start_batch in
        started-Owns fresh (sweep_stale_batches renv db) runs (sweep-Safe db runs safe)),
  )
