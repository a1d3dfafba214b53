-- ===== src/Life/Woven.antt =====
-- The steps of the system one by one: a run of app/batch_engine.py is no longer one step, and submissions,
-- starts and the death of the process come between its claim, its questions to the engine, the answers and
-- its end.
pub mod Distinct
pub mod Holds
pub mod Steps
pub mod Arrivals
pub mod Fits
pub mod Owned
pub mod Safe
pub mod Rescue
pub mod Invariant
pub mod Alone
pub mod Current
mod Tests
use dost_review_api.Prelude.{
  ◌≡◌, Bool, true, false, not, ◌||◌, Option, none, some, List, [], ◌∷◌, ◌++◌, All, if◌then◌else◌,
}
use dost_review_api.Models.{Uuid, DostReview}
use dost_review_api.Gate.Profiles.{Refusal}
use dost_review_api.Gate as Gate
use dost_review_api.Batch.Database.{Stats, no_stats, Db, elem, EngineInput, Reply}
use dost_review_api.Batch.Claim.{Group, claimed, group_by_profile}
use dost_review_api.Batch.Engine.{
  Settings, Env, Ended, finished, raised, Work, claimed_work, engine_input, process_profile,
}
use dost_review_api.Batch.Runner.{
  RunnerEnv, stale_ids, start_batch, finish_run, sweep_stale_batches,
}
use dost_review_api.Life.System.{with_reviews}

-- Where a run stands: `start_batch` has returned; the reviews of these profiles are still to be processed;
-- the engine has been asked for the first of them, with this input; or an exception has left `run_batch`.
pub data Phase : Type 0 where
  started : Phase
  working : List Group → Phase
  asked : Group → List Group → EngineInput → Phase
  broken : Phase

-- A call of `run_batch_to_completion` that has not returned.
pub record Active : Type 0 where
  pub id : Uuid
  pub phase : Phase
  pub stats : Stats

-- What `start_batch` returned: a run that it has started goes on.
unfoldable pub with_started : Option (Uuid × Bool) → List Active → List Active
with_started none runs = runs
with_started (some (id, false)) runs = runs
with_started (some (id, true)) runs = record { id = id; phase = started; stats = no_stats } ∷ runs

-- `run_batch` up to its loop.
unfoldable pub claim_step : Settings → Env → Active → Db → Active × Db
claim_step settings env a db =
    if not env.engine_loads || env.claim_fails
    then (record a { phase = broken; stats = no_stats }, db)
    else (
      record a {
        phase =
            working (
              group_by_profile (claimed env.locked settings.max_reviews_per_batch a.id db.reviews));
        stats = (claimed_work settings env a.id db).stats;
      },
      (claimed_work settings env a.id db).db,
    )

unfoldable pub phase_after : Ended → List Group → Phase
phase_after finished groups = working groups
phase_after raised groups = broken

-- The state of the profile is read, and the engine is asked.
unfoldable pub ask_step : Active → Group → List Group → Db → Active
ask_step a group groups db = record a {
  phase = asked group groups (engine_input group.0 group.1 db.reputations);
}

-- The engine has answered, whatever is stored by now.
abbrev pub answering : Env → Reply → Env
answering env reply = record env {
  process_reputation = λ input. reply;
  load_fails = λ profile_id. false;
}

-- The rest of a round of the loop.
unfoldable pub turn_step : Settings → Env → Active → Group → List Group → Db → Active × Db
turn_step settings env a group groups db =
    let (e, w) = process_profile settings env group (record { db = db; stats = a.stats }) in
    (record a { phase = phase_after e groups; stats = w.stats }, w.db)

-- How `run_batch` has ended, if it has.
unfoldable pub ended_as : Phase → Option Ended
ended_as started = none
ended_as (working []) = some finished
ended_as (working (group ∷ groups)) = none
ended_as (asked group groups input) = none
ended_as broken = some raised

-- What follows it.
unfoldable pub end_step : RunnerEnv → Active → Ended → Db → Db
end_step renv a e db = (finish_run renv a.id (e, record { db = db; stats = a.stats })).1

-- No run that is still going on is stale at this time.
abbrev pub IsPrompt : RunnerEnv → Db → List Active → Type 0
IsPrompt renv db = All (λ a. elem a.id (stale_ids renv db.runs) ≡ false)

-- The databases that steps in any order lead to, with the runs that are still going on.
pub data Weaves (s : Db) : Db → List Active → Type 0 where
  begins : Weaves s s []
  submits :
      {db : Db} {runs : List Active}
      → Weaves s db runs
      → (settings : Gate.Settings) (env : Gate.Env) (review : DostReview) (event_id : Option Uuid)
      → env.others db.reviews ≡ db.reviews
      → Weaves s
          (with_reviews db (Gate.gate_and_store settings env review event_id db.reviews).1)
          runs
  admits :
      {db : Db} {runs : List Active}
      → Weaves s db runs
      → (settings : Gate.Settings) (env : Gate.Env) (review : DostReview) (event_id : Option Uuid)
      → (profile_error : Option Refusal)
      → Weaves s
          (with_reviews db (Gate.admit settings env review event_id profile_error db.reviews).1)
          runs
  starts :
      {db : Db} {runs : List Active}
      → Weaves s db runs
      → (renv : RunnerEnv) (fresh : Uuid) → IsPrompt renv db runs
      → Weaves s (start_batch renv fresh db).1 (with_started (start_batch renv fresh db).0 runs)
  claims :
      {db : Db} {runs : List Active}
      → Weaves s db runs
      → (settings : Settings) (env : Env) (before after : List Active) (a : Active)
      → runs ≡ before ++ a ∷ after
      → a.phase ≡ started
      → Weaves s
          (claim_step settings env a db).1
          (before ++ (claim_step settings env a db).0 ∷ after)
  asks :
      {db : Db} {runs : List Active}
      → Weaves s db runs
      → (env : Env) (before after : List Active) (a : Active) (group : Group) (groups : List Group)
      → runs ≡ before ++ a ∷ after
      → a.phase ≡ working (group ∷ groups)
      → env.load_fails group.0 ≡ false
      → Weaves s db (before ++ ask_step a group groups db ∷ after)
  unread :
      {db : Db} {runs : List Active}
      → Weaves s db runs
      → (settings : Settings) (env : Env) (before after : List Active) (a : Active) (group : Group)
        (groups : List Group)
      → runs ≡ before ++ a ∷ after
      → a.phase ≡ working (group ∷ groups)
      → env.load_fails group.0 ≡ true
      → Weaves s
          (turn_step settings env a group groups db).1
          (before ++ (turn_step settings env a group groups db).0 ∷ after)
  answers :
      {db : Db} {runs : List Active}
      → Weaves s db runs
      → (settings : Settings) (env : Env) (before after : List Active) (a : Active) (group : Group)
        (groups : List Group) (input : EngineInput)
      → runs ≡ before ++ a ∷ after
      → a.phase ≡ asked group groups input
      → Weaves s
          (turn_step settings (answering env (env.process_reputation input)) a group groups db).1
          (before
            ++ (turn_step settings
                (answering env (env.process_reputation input))
                a
                group
                groups
                db).0
              ∷ after)
  ends :
      {db : Db} {runs : List Active}
      → Weaves s db runs
      → (renv : RunnerEnv) (before after : List Active) (a : Active) (e : Ended)
      → runs ≡ before ++ a ∷ after
      → ended_as a.phase ≡ some e
      → Weaves s (end_step renv a e db) (before ++ after)
  sweeps :
      {db : Db} {runs : List Active}
      → Weaves s db runs
      → (renv : RunnerEnv) → IsPrompt renv db runs
      → Weaves s (sweep_stale_batches renv db).1 runs
  dies : {db : Db} {runs : List Active} → Weaves s db runs → Weaves s db []
