-- ===== src/Life/Woven/Rescue.antt =====
-- In every order of the steps, a sweep finds the reviews of a dead run.
use dost_review_api.Prelude.{if◌then◌else◌, some, ◌≡◌, subst, true, false, List, [], ◌∷◌, ◌++◌, All}
use dost_review_api.Gate as Gate
use dost_review_api.Models.{Uuid}
use dost_review_api.Review.{Row, gated, is_processing, find}
use dost_review_api.Review.Laws.{HasUniqueIds}
use dost_review_api.Batch.Database.{Db}
use dost_review_api.Batch.Engine.{Env}
use dost_review_api.Batch.Orphans.{runs_on, HasNoOrphans, requeue-goes, sweep_clears}
use dost_review_api.Batch.Rescued.{sweep-find}
use dost_review_api.Batch.Runner.{RunnerEnv, is_running, is_stale, stale_ids, sweep_stale_batches}
use dost_review_api.Life.Woven.{
  Active, claim_step, turn_step, end_step, Weaves, begins, submits, admits, starts, claims,
  ask_step, answering, asks, unread, answers, ends, sweeps, dies,
}
use dost_review_api.Life.Woven.Arrivals.{gate-All, admit-All}
use dost_review_api.Life.Woven.Fits.{Fits, Fits-at}
use dost_review_api.Life.Woven.Invariant.{weaves-Woven}
use dost_review_api.Life.Woven.Owned.{
  Owns, Leaves, claim-Leaves, turn-Leaves, working-HeldWithin, asked-HeldWithin, end-HasNoOrphans,
}
use dost_review_api.Life.Woven.Safe.{Safe, Safe-rows, sweep-Safe, start-Safe}

-- Every requeue of these steps has gone through.
abbrev pub Requeues : {s db : Db} {runs : List Active} → Weaves s db runs → Type 0
Requeues begins = Unit
Requeues (submits before settings env review event_id quiet) = Requeues before
Requeues (admits before settings env review event_id profile_error) = Requeues before
Requeues (starts before renv fresh prompt) = Requeues before × (renv.sweep_requeue_fails ≡ false)
Requeues (claims before settings env others more a e phase) = Requeues before
Requeues (asks before env others more a group groups e phase loads) = Requeues before
Requeues (unread before settings env others more a group groups e phase fails) = Requeues before
Requeues (answers before settings env others more a group groups input e phase) = Requeues before
Requeues (ends before renv others more a end e phase) =
    Requeues before × (renv.requeue_fails ≡ false)
Requeues (sweeps before renv prompt) = Requeues before × (renv.sweep_requeue_fails ≡ false)
Requeues (dies before) = Requeues before

module _ (s : Db) (unique : HasUniqueIds s.reviews) (h : HasNoOrphans s) where
  -- The step of one run.
  own_step-Safe :
      (db : Db) (before after : List Active) (a : Active) (next : Active × Db) (runs : List Active)
      → runs ≡ before ++ a ∷ after
      → Fits db runs
      → Safe db runs
      → (runs_on a.id db.runs ≡ true → HasNoOrphans db → Owns db a → Leaves next)
      → Safe next.1 (before ++ next.0 ∷ after)
  own_step-Safe db before after a (a', db') runs e fits safe step =
      let fits' : Fits db (before ++ a ∷ after) = subst (Fits db) e fits in
      let safe' : Safe db (before ++ a ∷ after) = subst (Safe db) e safe in
      go before after fits' safe'.1 (step (Fits-at db before after a fits').1 safe'.0)
    where
      go :
          (before after : List Active)
          → Fits db (before ++ a ∷ after)
          → All (Owns db) (before ++ a ∷ after)
          → (Owns db a → Leaves (a', db'))
          → Safe db' (before ++ a' ∷ after)
      go [] [] fits own leaves = let (h', own') = leaves own.0 in (h', (own', tt))
      go [] (b ∷ after) fits own leaves = absurd fits
      go (b ∷ []) after fits own leaves = absurd fits
      go (b ∷ c ∷ before) after fits own leaves = absurd fits

  own_end-Safe :
      (db db' : Db) (before after : List Active) (a : Active) (runs : List Active)
      → runs ≡ before ++ a ∷ after
      → Fits db runs
      → Safe db runs
      → (HasNoOrphans db → Owns db a → HasNoOrphans db')
      → Safe db' (before ++ after)
  own_end-Safe db db' before after a runs e fits safe step =
      go before after (subst (Fits db) e fits) (subst (Safe db) e safe).1
    where
      go :
          (before after : List Active)
          → Fits db (before ++ a ∷ after)
          → All (Owns db) (before ++ a ∷ after)
          → Safe db' (before ++ after)
      go [] [] fits own = (step safe.0 own.0, tt)
      go [] (b ∷ after) fits own = absurd fits
      go (b ∷ []) after fits own = absurd fits
      go (b ∷ c ∷ before) after fits own = absurd fits

  weaves-Safe : {db : Db} {runs : List Active} (w : Weaves s db runs) → Requeues w → Safe db runs
  weaves-Safe begins ok = (h, tt)
  weaves-Safe (submits {db} {runs} before settings env review event_id quiet) ok =
      Safe-rows db (Gate.gate_and_store settings env review event_id db.reviews).1 runs
        (λ P spares all. gate-All P spares env review event_id settings db.reviews quiet all)
        (weaves-Safe before ok)
  weaves-Safe (admits {db} {runs} before settings env review event_id error) ok =
      Safe-rows db (Gate.admit settings env review event_id error db.reviews).1 runs
        (λ P spares all. admit-All P spares env review event_id settings error db.reviews all)
        (weaves-Safe before ok)
  weaves-Safe (starts {db} {runs} before renv fresh prompt) ok =
      start-Safe renv ok.1 fresh db runs (weaves-Safe before ok.0)
  weaves-Safe (claims {db} {runs} before settings env others more a e phase) ok =
      own_step-Safe db others more a (claim_step settings env a db) runs e
        (weaves-Woven s unique before).0 (weaves-Safe before ok)
        (λ on. claim-Leaves settings env a db on phase)
  weaves-Safe (asks {db} {runs} before env others more a group groups e phase loads) ok =
      own_step-Safe db others more a (ask_step a group groups db, db) runs e
        (weaves-Woven s unique before).0 (weaves-Safe before ok)
        (λ on h own. (h, (unfold ask_step in working-HeldWithin a group groups db phase own)))
  weaves-Safe (unread {db} {runs} before settings env others more a group groups e phase fails) ok =
      own_step-Safe db others more a (turn_step settings env a group groups db) runs e
        (weaves-Woven s unique before).0 (weaves-Safe before ok)
        (λ on h own.
          turn-Leaves settings env a group groups db on
            (working-HeldWithin a group groups db phase own) h)
  weaves-Safe (answers {db} {runs} before settings env others more a group groups input e phase)
        ok =
      let env' : Env = answering env (env.process_reputation input) in
      own_step-Safe db others more a (turn_step settings env' a group groups db) runs e
        (weaves-Woven s unique before).0 (weaves-Safe before ok)
        (λ on h own.
          turn-Leaves settings env' a group groups db on
            (asked-HeldWithin a group groups input db phase own) h)
  weaves-Safe (ends {db} {runs} before renv others more a end e phase) ok =
      own_end-Safe db (end_step renv a end db) others more a runs e (weaves-Woven s unique before).0
        (weaves-Safe before ok.0) (end-HasNoOrphans renv a end db ok.1 phase)
  weaves-Safe (sweeps {db} {runs} before renv prompt) ok =
      sweep-Safe renv ok.1 db runs (weaves-Safe before ok.0)
  weaves-Safe (dies before) ok = ((weaves-Safe before ok).0, tt)

-- Every review in PROCESSING belongs to a RUNNING run, and if that run is going on, the review is among
-- those that it still has to process or has been left by an exception that the end of the run answers,
-- however submissions, starts, sweeps, the single steps of runs and deaths of the process follow one
-- another. This held at first, with nothing going on; ids are unique at first; no start or sweep comes so
-- late that the run that is going on is stale; and every requeue so far has gone through.
pub woven-Owned :
    (s db : Db) (runs : List Active)
    → HasUniqueIds s.reviews
    → HasNoOrphans s
    → (w : Weaves s db runs) → Requeues w
    → HasNoOrphans db × All (Owns db) runs
woven-Owned s db runs unique h w ok = weaves-Safe s unique h w ok

-- Whenever the process dies, its reviews are taken up again: once every RUNNING run is stale, one sweep
-- whose requeue goes through makes each review that is in PROCESSING GATED, with all its other columns as
-- they were, leaves every other review as it was, and so leaves none in PROCESSING. This holds however
-- submissions, starts, sweeps, the single
-- steps of runs and deaths of the process have followed one another, if every review in PROCESSING
-- belonged to a RUNNING run at first, with nothing going on, ids were unique at first, no start or sweep
-- came so late that the run that was going on was stale, and every requeue so far has gone through.
pub woven-rescues :
    (s db : Db) (runs : List Active) (renv : RunnerEnv) (k : Uuid) (r : Row)
    → HasUniqueIds s.reviews
    → HasNoOrphans s
    → (w : Weaves s db runs) → Requeues w
    → renv.sweep_requeue_fails ≡ false
    → All (λ b. is_running b.status ≡ true → is_stale renv b ≡ true) db.runs
    → find k db.reviews ≡ some r
    → (find k (sweep_stale_batches renv db).1.reviews
        ≡ some (if is_processing r.status then record r { status = gated } else r))
      × All (λ r. is_processing r.status ≡ false) (sweep_stale_batches renv db).1.reviews
woven-rescues s db runs renv k r unique h w ok goes stale found =
    let owned = (weaves-Safe s unique h w ok).0 in
    let goes' = requeue-goes renv (stale_ids renv db.runs) goes in
    (sweep-find renv db k r goes' owned stale found, sweep_clears renv db goes' owned stale)
