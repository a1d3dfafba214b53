-- ===== src/Life/Woven/Current.antt =====
-- The engine's answer is to what is stored when it comes.
use dost_review_api.Prelude.{
  ◌⊎◌, ◌≢◌, arith, ◌≡◌, refl, sym, subst, not, ◌||◌, Option, none, some, List, [], ◌∷◌, ◌++◌, All,
  Bool-cases, inl, inr,
}
use dost_review_api.Models.{Uuid}
use dost_review_api.Review.Laws.{HasUniqueIds}
use dost_review_api.Batch.Database.{BatchRun, Db, Reputation, JsonObject, find_reputation}
use dost_review_api.Batch.Claim.{Group}
use dost_review_api.Batch.Engine.{
  Settings, Env, Ended, finished, raised, stored_state, engine_input,
}
use dost_review_api.Batch.Runner.{
  RunnerEnv, find_run, is_running, start_given, start_swept, start_unless_running, start_batch,
  sweep_stale_batches,
}
use dost_review_api.Life.Woven.{
  Phase, started, working, asked, broken, Active, with_started, claim_step, phase_after, ask_step,
  answering, turn_step, end_step, Weaves, begins, submits, admits, starts, claims, asks, unread,
  answers, ends, sweeps, dies,
}
use dost_review_api.Life.Woven.Fits.{Fits}
use dost_review_api.Life.Woven.Invariant.{weaves-Woven}

-- The state that a profile's row holds: none without a row, or if the row holds an empty object.
abbrev pub IsStateOf : Option Reputation → Option JsonObject → Type 0
IsStateOf none state = state ≡ none
IsStateOf (some r) state =
    ((r.state ≡ []) × (state ≡ none)) ⊎ ((r.state ≢ []) × (state ≡ some r.state))

-- A question that is out was put with what is stored now.
abbrev pub IsCurrent : List Reputation → Phase → Type 0
IsCurrent reputations started = Unit
IsCurrent reputations (working groups) = Unit
IsCurrent reputations (asked group groups input) =
    (input ≡ engine_input group.0 group.1 reputations)
    × IsStateOf (find_reputation group.0 reputations) input.state
IsCurrent reputations broken = Unit

stored_state-IsStateOf : (r : Option Reputation) → IsStateOf r (stored_state r)
unfolding stored_state
stored_state-IsStateOf none = refl
stored_state-IsStateOf (some r) = go r.state refl
  where
    go :
        (s : JsonObject)
        → r.state ≡ s
        → IsStateOf (some r) (elim s [ [] ↦ none | m ∷ ms ↦ some (m ∷ ms) ])
    go [] e = inl (e, refl)
    go (m ∷ ms) e = inr (rw e (λ x. cc), rw e refl)

abbrev AllCurrent : Db → List Active → Type 0
AllCurrent db = All (λ a. IsCurrent db.reputations a.phase)

sweep-reputations :
    (renv : RunnerEnv) (db : Db) → (sweep_stale_batches renv db).1.reputations ≡ db.reputations
unfolding sweep_stale_batches
sweep-reputations renv db = ground arith

same-AllCurrent :
    (db db' : Db) (runs : List Active)
    → db'.reputations ≡ db.reputations
    → AllCurrent db runs
    → AllCurrent db' runs
same-AllCurrent db db' runs e all =
    subst (λ (r : List Reputation). All (λ a. IsCurrent r a.phase) runs) (sym e) all

given-AllCurrent :
    (renv : RunnerEnv) (fresh : Uuid) (db : Db) (runs : List Active) (o : Option BatchRun)
    → AllCurrent db runs
    → AllCurrent (start_given renv fresh db o).2 (
        with_started (some ((start_given renv fresh db o).0, (start_given renv fresh db o).1)) runs)
unfolding start_given with_started
given-AllCurrent renv fresh db runs (some b) all = all
given-AllCurrent renv fresh db runs none all = (tt, all)

started-AllCurrent :
    (renv : RunnerEnv) (fresh : Uuid) (swept : Ended × Db) (runs : List Active)
    → AllCurrent swept.1 runs
    → AllCurrent
        (start_swept renv fresh swept).1
        (with_started (start_swept renv fresh swept).0 runs)
unfolding start_swept start_unless_running with_started
started-AllCurrent renv fresh (raised, db) runs all = all
started-AllCurrent renv fresh (finished, db) runs all =
    given-AllCurrent renv fresh db runs (find_run (λ b. is_running b.status) db.runs) all

start-AllCurrent :
    (renv : RunnerEnv) (fresh : Uuid) (db : Db) (runs : List Active)
    → AllCurrent db runs
    → AllCurrent (start_batch renv fresh db).1 (with_started (start_batch renv fresh db).0 runs)
unfolding start_batch
start-AllCurrent renv fresh db runs all =
    started-AllCurrent renv fresh (sweep_stale_batches renv db) runs
      (same-AllCurrent db (sweep_stale_batches renv db).1 runs (sweep-reputations renv db) all)

-- The step of the only run.
own-AllCurrent :
    (db db' : Db) (before after : List Active) (a a' : Active) (runs : List Active)
    → runs ≡ before ++ a ∷ after
    → Fits db runs
    → IsCurrent db'.reputations a'.phase
    → AllCurrent db' (before ++ a' ∷ after)
own-AllCurrent db db' before after a a' runs e fits now = go before after (subst (Fits db) e fits)
  where
    go :
        (before after : List Active)
        → Fits db (before ++ a ∷ after)
        → AllCurrent db' (before ++ a' ∷ after)
    go [] [] fits = (now, tt)
    go [] (b ∷ after) fits = absurd fits
    go (b ∷ []) after fits = absurd fits
    go (b ∷ c ∷ before) after fits = absurd fits

end-AllCurrent :
    (db db' : Db) (before after : List Active) (a : Active) (runs : List Active)
    → runs ≡ before ++ a ∷ after
    → Fits db runs
    → AllCurrent db' (before ++ after)
end-AllCurrent db db' before after a runs e fits = go before after (subst (Fits db) e fits)
  where
    go :
        (before after : List Active)
        → Fits db (before ++ a ∷ after)
        → AllCurrent db' (before ++ after)
    go [] [] fits = tt
    go [] (b ∷ after) fits = absurd fits
    go (b ∷ []) after fits = absurd fits
    go (b ∷ c ∷ before) after fits = absurd fits

claim-IsCurrent :
    (settings : Settings) (env : Env) (a : Active) (db : Db)
    → IsCurrent (claim_step settings env a db).1.reputations (claim_step settings env a db).0.phase
unfolding claim_step
claim-IsCurrent settings env a db = elim (Bool-cases (not env.engine_loads || env.claim_fails)) [
  | inl stops ↦ rw stops tt
  | inr goes_on ↦ rw goes_on tt
]

after-IsCurrent :
    (reputations : List Reputation) (e : Ended) (groups : List Group)
    → IsCurrent reputations (phase_after e groups)
unfolding phase_after
after-IsCurrent reputations finished groups = tt
after-IsCurrent reputations raised groups = tt

module _ (s : Db) (unique : HasUniqueIds s.reviews) where
  weaves-AllCurrent : {db : Db} {runs : List Active} → Weaves s db runs → AllCurrent db runs
  weaves-AllCurrent begins = tt
  weaves-AllCurrent (submits before settings env review event_id quiet) = weaves-AllCurrent before
  weaves-AllCurrent (admits before settings env review event_id error) = weaves-AllCurrent before
  weaves-AllCurrent (starts {db} {runs} before renv fresh prompt) =
      start-AllCurrent renv fresh db runs (weaves-AllCurrent before)
  weaves-AllCurrent (claims {db} {runs} before settings env others more a e phase) =
      own-AllCurrent db (claim_step settings env a db).1 others more a
        (claim_step settings env a db).0 runs e (weaves-Woven s unique before).0
        (claim-IsCurrent settings env a db)
  weaves-AllCurrent (asks {db} {runs} before env others more a group groups e phase loads) =
      own-AllCurrent db db others more a (ask_step a group groups db) runs e
        (weaves-Woven s unique before).0
        (unfold ask_step engine_input in (refl, stored_state-IsStateOf _))
  weaves-AllCurrent
        (unread {db} {runs} before settings env others more a group groups e phase fails) =
      let next : Active × Db = turn_step settings env a group groups db in
      own-AllCurrent db next.1 others more a next.0 runs e (weaves-Woven s unique before).0
        (unfold turn_step in after-IsCurrent _ _ groups)
  weaves-AllCurrent
        (answers {db} {runs} before settings env others more a group groups input e phase) =
      let next : Active × Db =
        turn_step settings (answering env (env.process_reputation input)) a group groups db in
      own-AllCurrent db next.1 others more a next.0 runs e (weaves-Woven s unique before).0
        (unfold turn_step in after-IsCurrent _ _ groups)
  weaves-AllCurrent (ends {db} {runs} before renv others more a end e phase) =
      end-AllCurrent db (end_step renv a end db) others more a runs e
        (weaves-Woven s unique before).0
  weaves-AllCurrent (sweeps {db} {runs} before renv prompt) =
      same-AllCurrent db (sweep_stale_batches renv db).1 runs (sweep-reputations renv db)
        (weaves-AllCurrent before)
  weaves-AllCurrent (dies before) = tt

-- While the engine is at work on a profile, its input is the one that would be made of what is stored by
-- now, and it carries the state that the profile's row holds now: no state if there is no row or if the row
-- holds an empty object, and else the whole stored state. This holds however submissions, starts, sweeps, the single steps of runs and
-- deaths of the process follow one another, if ids are unique at first, nothing is going on at first, and
-- no start or sweep comes so late that the run that is going on is stale.
pub woven-Current :
    (s db : Db) (runs : List Active)
    → HasUniqueIds s.reviews
    → Weaves s db runs
    → All (λ a. IsCurrent db.reputations a.phase) runs
woven-Current s db runs unique steps = weaves-AllCurrent s unique steps
