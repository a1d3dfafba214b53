-- ===== src/Life/Woven/Fits.antt =====
-- What the database and the runs that are going on have to do with each other, and which steps keep it.
use dost_review_api.Prelude.{
  length, eq_refl, ◌≤◌, ◌≡◌, refl, true, false, Option, none, some, List, [], ◌∷◌, ◌++◌, All, arith,
  Bool-cases, inl, inr,
}
use dost_review_api.Models.{Uuid}
use dost_review_api.Review.{Row}
use dost_review_api.Batch.Database.{BatchRun, Db, elem}
use dost_review_api.Batch.Engine.{Ended, finished, raised}
use dost_review_api.Batch.Orphans.{runs_on, still_owned}
use dost_review_api.Batch.Runner.{
  RunnerEnv, is_running, find_run, new_run, in_batches, is_stale, close_stale, update_runs,
  stale_ids, requeue_raises, requeue, sweep_stale_batches, start_given, start_swept,
  start_unless_running, start_batch,
}
use dost_review_api.Life.System.{with_reviews}
use dost_review_api.Life.Woven.{Active, with_started, IsPrompt}
use dost_review_api.Life.Woven.Holds.{IsHeldBy, Holds, HoldsPhase-mono, requeue-IsHeldBy}

-- One run at most is going on; it is RUNNING, and it holds what it still has to process.
abbrev pub Fits : Db → List Active → Type 0
Fits db [] = Unit
Fits db (a ∷ []) = Holds db.reviews a × (runs_on a.id db.runs ≡ true)
Fits db (a ∷ b ∷ runs) = ⊥

pub Fits-reviews :
    (db : Db) (rows : List Row) (runs : List Active)
    → ((id k : Uuid) → IsHeldBy id db.reviews k → IsHeldBy id rows k)
    → Fits db runs
    → Fits (with_reviews db rows) runs
Fits-reviews db rows [] keeps fits = tt
Fits-reviews db rows (a ∷ []) keeps (holds, on) =
    (HoldsPhase-mono a.id db.reviews rows a.phase (keeps a.id) holds, on)
Fits-reviews db rows (a ∷ b ∷ runs) keeps fits = fits

-- The run that takes a step.
pub Fits-at :
    (db : Db) (before after : List Active) (a : Active)
    → Fits db (before ++ a ∷ after)
    → Holds db.reviews a × (runs_on a.id db.runs ≡ true)
Fits-at db [] [] a fits = fits
Fits-at db [] (b ∷ after) a fits = absurd fits
Fits-at db (b ∷ []) after a fits = absurd fits
Fits-at db (b ∷ c ∷ before) after a fits = absurd fits

pub Fits-replace :
    (db db' : Db) (before after : List Active) (a a' : Active)
    → Fits db (before ++ a ∷ after)
    → Holds db'.reviews a' × (runs_on a'.id db'.runs ≡ true)
    → Fits db' (before ++ a' ∷ after)
Fits-replace db db' [] [] a a' fits new = new
Fits-replace db db' [] (b ∷ after) a a' fits new = fits
Fits-replace db db' (b ∷ []) after a a' fits new = fits
Fits-replace db db' (b ∷ c ∷ before) after a a' fits new = fits

pub Fits-drop :
    (db db' : Db) (before after : List Active) (a : Active)
    → Fits db (before ++ a ∷ after)
    → Fits db' (before ++ after)
Fits-drop db db' [] [] a fits = tt
Fits-drop db db' [] (b ∷ after) a fits = absurd fits
Fits-drop db db' (b ∷ []) after a fits = absurd fits
Fits-drop db db' (b ∷ c ∷ before) after a fits = absurd fits

pub Fits-Single :
    (db : Db) (runs : List Active)
    → Fits db runs
    → (length runs ≤ 1) × All (λ a. runs_on a.id db.runs ≡ true) runs
Fits-Single db [] fits = (omega arith, tt)
Fits-Single db (a ∷ []) fits = (omega arith, (fits.1, tt))
Fits-Single db (a ∷ b ∷ runs) fits = absurd fits

pub idle-runs_on :
    (id : Uuid) (runs : List BatchRun)
    → find_run (λ b. is_running b.status) runs ≡ none
    → runs_on id runs ≡ false
unfolding find_run runs_on
idle-runs_on id [] e = refl
idle-runs_on id (b ∷ runs) e = ground (arith, idle-runs_on id runs)

module _ (renv : RunnerEnv) where
  swept-Holds :
      (db : Db) (a : Active)
      → elem a.id (stale_ids renv db.runs) ≡ false
      → Holds db.reviews a × (runs_on a.id db.runs ≡ true)
      → Holds (sweep_stale_batches renv db).1.reviews a
        × (runs_on a.id (sweep_stale_batches renv db).1.runs ≡ true)
  unfolding sweep_stale_batches in_batches stale_ids
  swept-Holds db a prompt (holds, on) =
      let still : runs_on a.id (update_runs (is_stale renv) (close_stale renv.now) db.runs) ≡ true =
        still_owned (is_stale renv) (close_stale renv.now) db.runs (some a.id) prompt on in
      elim (Bool-cases (requeue_raises renv (stale_ids renv db.runs))) [
        | inl fails ↦ rw fails (holds, still)
        | inr goes_on ↦ rw goes_on (
          HoldsPhase-mono a.id db.reviews (requeue (stale_ids renv db.runs) db.reviews) a.phase
              (λ k. requeue-IsHeldBy a.id (stale_ids renv db.runs) db.reviews k prompt) holds,
          still,
        )
      ]

  pub sweep-Fits :
      (db : Db) (runs : List Active)
      → IsPrompt renv db runs
      → Fits db runs
      → Fits (sweep_stale_batches renv db).1 runs
  sweep-Fits db [] prompt fits = tt
  sweep-Fits db (a ∷ []) prompt fits = swept-Holds db a prompt.0 fits
  sweep-Fits db (a ∷ b ∷ runs) prompt fits = fits

  given-Fits :
      (fresh : Uuid) (db : Db) (runs : List Active) (o : Option BatchRun)
      → find_run (λ b. is_running b.status) db.runs ≡ o
      → Fits db runs
      → Fits (start_given renv fresh db o).2 (
          with_started
            (some ((start_given renv fresh db o).0, (start_given renv fresh db o).1))
            runs)
  unfolding start_given with_started runs_on new_run
  given-Fits fresh db runs (some b) e fits = fits
  given-Fits fresh db [] none e fits = (tt, rw (eq_refl fresh) refl)
  given-Fits fresh db (a ∷ []) none e fits = absurd (cc (fits.1, idle-runs_on a.id db.runs e))
  given-Fits fresh db (a ∷ b ∷ runs) none e fits = absurd fits

  started-Fits :
      (fresh : Uuid) (swept : Ended × Db) (runs : List Active)
      → Fits swept.1 runs
      → Fits (start_swept renv fresh swept).1 (with_started (start_swept renv fresh swept).0 runs)
  unfolding start_swept start_unless_running
  started-Fits fresh (raised, db) runs fits = unfold with_started in fits
  started-Fits fresh (finished, db) runs fits =
      given-Fits fresh db runs (find_run (λ b. is_running b.status) db.runs) refl fits

  pub start-Fits :
      (fresh : Uuid) (db : Db) (runs : List Active)
      → IsPrompt renv db runs
      → Fits db runs
      → Fits (start_batch renv fresh db).1 (with_started (start_batch renv fresh db).0 runs)
  unfolding start_batch
  start-Fits fresh db runs prompt fits =
      started-Fits fresh (sweep_stale_batches renv db) runs (sweep-Fits db runs prompt fits)
