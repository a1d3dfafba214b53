-- ===== src/Batch/Single.antt =====
-- At most one run is RUNNING; and what a failed requeue leaves behind.
use dost_review_api.Prelude.{
  ℕ, ◌≤◌, ◌==◌, eq_iff, ◌≡◌, refl, Bool, true, false, ◌&&◌, Option, some, none, List, [], ◌∷◌,
  arith, keep, count, All, Bool-cases, ◌⊎◌, inl, inr, eq_refl,
}
use dost_review_api.Models.{Uuid}
use dost_review_api.Review.{Row, is_processing, find}
use dost_review_api.Batch.Database.{BatchRun, Db, elem}
use dost_review_api.Batch.Chosen.{find-update}
use dost_review_api.Batch.Engine.{Ended, finished, raised}
use dost_review_api.Batch.Runner.{
  RunnerEnv, is_running, update_runs, in_batches, back_to_gated, requeue, is_stale, close_stale,
  run_ids, stale_ids, requeue_raises, sweep_stale_batches, new_run, find_run, start_given,
  start_swept, start_unless_running, start_batch,
}

abbrev pub running_count : Db → ℕ
running_count db = count (λ b. is_running b.status) db.runs

-- Closing runs starts none.
count-update_runs :
    (p : BatchRun → Bool) (f : BatchRun → BatchRun) (runs : List BatchRun)
    → ((b : BatchRun) → is_running (f b).status ≡ false)
    → count (λ b. is_running b.status) (update_runs p f runs)
      ≤ count (λ b. is_running b.status) runs
unfolding update_runs
count-update_runs p f [] h = omega arith
count-update_runs p f (b ∷ runs) h = ground (arith, count-update_runs p f runs h, h b)

count-find_run :
    (runs : List BatchRun)
    → find_run (λ b. is_running b.status) runs ≡ none
    → count (λ b. is_running b.status) runs ≡ 0
unfolding find_run
count-find_run [] e = refl
count-find_run (b ∷ runs) e = ground (arith, count-find_run runs)

find_run-running :
    (runs : List BatchRun) (b : BatchRun)
    → find_run (λ b. is_running b.status) runs ≡ some b
    → (is_running b.status ≡ true)
      × (elem b.id (run_ids (keep (λ b. is_running b.status) runs)) ≡ true)
unfolding find_run elem
find_run-running [] b e = cc
find_run-running (c ∷ runs) b e = ground (arith, find_run-running runs b, eq_iff c.id c.id)

sweep-running_count :
    (env : RunnerEnv) (db : Db) → running_count (sweep_stale_batches env db).1 ≤ running_count db
unfolding sweep_stale_batches
sweep-running_count env db = ground (
  arith,
  count-update_runs (is_stale env) (close_stale env.now) db.runs (λ b. unfold close_stale in refl),
)

-- What `start_batch` promises of its result.
abbrev pub Started : Uuid → Db → Option (Uuid × Bool) × Db → Type 0
Started fresh db (none, db') = running_count db' ≤ running_count db
Started fresh db (some (id, true), db') =
    (id ≡ fresh)
    × (elem id (run_ids (keep (λ b. is_running b.status) db'.runs)) ≡ true)
    × (running_count db' ≡ 1)
Started fresh db (some (id, false), db') =
    (elem id (run_ids (keep (λ b. is_running b.status) db'.runs)) ≡ true)
    × (running_count db' ≤ running_count db)

start-Started :
    (env : RunnerEnv) (fresh : Uuid) (before : Db) (r : Ended × Db)
    → running_count r.1 ≤ running_count before
    → Started fresh before (start_swept env fresh r)
unfolding start_swept start_unless_running start_given new_run elem
start-Started env fresh before (raised, db) h = h
start-Started env fresh before (finished, db) h =
    go (find_run (λ b. is_running b.status) db.runs) refl
  where
    go :
        (o : Option BatchRun)
        → find_run (λ b. is_running b.status) db.runs ≡ o
        → Started fresh before (
          some ((start_given env fresh db o).0, (start_given env fresh db o).1),
          (start_given env fresh db o).2,
        )
    go none e = (refl, rw (eq_refl fresh) refl, ground (arith, count-find_run db.runs))
    go (some b) e = ((find_run-running db.runs b e).1, h)

-- A run that `start_batch` starts is RUNNING under the fresh id, and it is the only RUNNING one; a refusal names a run
-- that is RUNNING; and neither a refusal nor a sweep that raises adds a RUNNING run.
pub start_batch-Started :
    (env : RunnerEnv) (fresh : Uuid) (db : Db) → Started fresh db (start_batch env fresh db)
unfolding start_batch
start_batch-Started env fresh db =
    start-Started env fresh db (sweep_stale_batches env db) (sweep-running_count env db)

-- No run of this id is RUNNING.
abbrev IsOff : Uuid → List BatchRun → Type 0
IsOff b = All (λ run. (run.id == b) ≡ true → is_running run.status ≡ false)

-- All RUNNING runs of this id are closed.
closed-IsOff :
    (env : RunnerEnv) (b : Uuid) (runs : List BatchRun)
    → All
        (λ run. (run.id == b) ≡ true → is_running run.status ≡ true → is_stale env run ≡ true)
        runs
    → IsOff b (update_runs (is_stale env) (close_stale env.now) runs)
unfolding update_runs close_stale
closed-IsOff env b [] h = tt
closed-IsOff env b (r ∷ runs) h = elim (Bool-cases (is_stale env r)) [
  | inl met ↦ rw met ((λ e. refl), closed-IsOff env b runs h.1)
  | inr other ↦ rw other ((λ e. ground (arith, e, h.0)), closed-IsOff env b runs h.1)
]

IsOff-stale :
    (env : RunnerEnv) (b : Uuid) (runs : List BatchRun)
    → IsOff b runs
    → All
        (λ run. (run.id == b) ≡ true → is_running run.status ≡ true → is_stale env run ≡ true)
        runs
IsOff-stale env b [] off = tt
IsOff-stale env b (r ∷ runs) off =
    ((λ e on. absurd (cc (off.0 e, on))), IsOff-stale env b runs off.1)

off-stale_ids :
    (env : RunnerEnv) (b : Uuid) (runs : List BatchRun)
    → IsOff b runs
    → elem b (stale_ids env runs) ≡ false
unfolding stale_ids elem is_stale
off-stale_ids env b [] off = refl
off-stale_ids env b (r ∷ runs) off = ground (arith, off.0, off-stale_ids env b runs off.1)

-- A review under no id of the list is not requeued.
find-requeue_other :
    (ids : List Uuid) (k : Uuid) (rows : List Row) (r : Row)
    → find k rows ≡ some r
    → in_batches ids r.batch_id ≡ false
    → find k (requeue ids rows) ≡ some r
unfolding requeue back_to_gated
find-requeue_other ids k rows r e h = ground (
  arith,
  h,
  find-update (λ r. is_processing r.status && in_batches ids r.batch_id) back_to_gated (λ r. refl) k
      rows,
)

-- Sweeps one after another.
unfoldable pub sweep_all : List RunnerEnv → Db → Db
sweep_all [] db = db
sweep_all (env ∷ envs) db = sweep_all envs (sweep_stale_batches env db).1

sweep-runs :
    (env : RunnerEnv) (db : Db)
    → (sweep_stale_batches env db).1.runs ≡ update_runs (is_stale env) (close_stale env.now) db.runs
unfolding sweep_stale_batches
sweep-runs env db = ground arith

sweep-find_other :
    (env : RunnerEnv) (db : Db) (k : Uuid) (r : Row)
    → find k db.reviews ≡ some r
    → (requeue_raises env (stale_ids env db.runs) ≡ true)
      ⊎ (in_batches (stale_ids env db.runs) r.batch_id ≡ false)
    → find k (sweep_stale_batches env db).1.reviews ≡ some r
unfolding sweep_stale_batches
sweep-find_other env db k r found (inl fails) = rw fails found
sweep-find_other env db k r found (inr out) =
    ground (arith, find-requeue_other (stale_ids env db.runs) k db.reviews r found out)

-- The requeue of a sweep raises, or there was nothing to requeue.
raises-cases :
    (env : RunnerEnv) (ids : List Uuid) (o : Option Uuid)
    → env.sweep_requeue_fails ≡ true
    → (requeue_raises env ids ≡ true) ⊎ (in_batches ids o ≡ false)
unfolding requeue_raises in_batches elem
raises-cases env [] none fails = inr refl
raises-cases env [] (some b) fails = inr refl
raises-cases env (id ∷ ids) o fails = inl fails

sweep_all-find :
    (envs : List RunnerEnv) (db : Db) (k b : Uuid) (r : Row)
    → find k db.reviews ≡ some r
    → r.batch_id ≡ some b
    → IsOff b db.runs
    → find k (sweep_all envs db).reviews ≡ some r
unfolding sweep_all
sweep_all-find [] db k b r found under off = found
sweep_all-find (env ∷ envs) db k b r found under off =
    sweep_all-find envs (sweep_stale_batches env db).1 k b r
      (sweep-find_other env db k r found
        (inr (rw under (unfold in_batches in off-stale_ids env b db.runs off))))
      under (rw (sweep-runs env db) (closed-IsOff env b db.runs (IsOff-stale env b db.runs off)))

-- If the requeue of a sweep raises when every RUNNING run of a review's batch is stale, the review is as
-- it was after that sweep, and after any number of further sweeps that follow it directly, whatever they
-- meet: if it was in PROCESSING, it stays there.
pub sweep_loses :
    (first : RunnerEnv) (later : List RunnerEnv) (db : Db) (k b : Uuid) (r : Row)
    → first.sweep_requeue_fails ≡ true
    → find k db.reviews ≡ some r
    → r.batch_id ≡ some b
    → All
        (λ run. (run.id == b) ≡ true → is_running run.status ≡ true → is_stale first run ≡ true)
        db.runs
    → find k (sweep_all later (sweep_stale_batches first db).1).reviews ≡ some r
sweep_loses first later db k b r fails found under dead =
    sweep_all-find later (sweep_stale_batches first db).1 k b r
      (sweep-find_other first db k r found
        (raises-cases first (stale_ids first db.runs) r.batch_id fails))
      under (rw (sweep-runs first db) (closed-IsOff first b db.runs dead))
