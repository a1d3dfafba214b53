-- ===== src/Life/Woven/Invariant.antt =====
-- Every order of the steps keeps the reviews' lives, and at most one run going on.
use dost_review_api.Prelude.{
  arith, All, length, ◌≤◌, ◌≡◌, refl, ap, subst, ◌∙◌, true, not, ◌||◌, some, List, [], ◌∷◌, ◌++◌,
  Bool-cases, inl, inr,
}
use dost_review_api.Gate as Gate
use dost_review_api.Models.{Uuid}
use dost_review_api.Review.{Row, find}
use dost_review_api.Review.Laws.{HasUniqueIds}
use dost_review_api.Batch.Database.{Db}
use dost_review_api.Batch.Claim.{Group}
use dost_review_api.Batch.Engine.{
  Settings, Env, Ended, finished, raised, Work, claimed_work, process_profile, fail_row,
  commit_profile,
}
use dost_review_api.Batch.Runner.{sweep_stale_batches, start_batch}
use dost_review_api.Batch.Keeps.{process_profile-keeps}
use dost_review_api.Batch.Orphans.{runs_on}
use dost_review_api.Life.{Life, is_final}
use dost_review_api.Life.Laws.{Life-refl, Kept, Kept-refl, Kept-trans}
use dost_review_api.Life.System.{with_reviews}
use dost_review_api.Life.Submission.{gate-Kept, admit-Kept}
use dost_review_api.Life.Run.{start-Kept, finish-Kept, sweep-Kept}
use dost_review_api.Life.Woven.{
  Phase, working, asked, answering, ask_step, Active, with_started, claim_step, phase_after,
  turn_step, end_step, Weaves, begins, submits, admits, starts, claims, asks, unread, answers, ends,
  sweeps, dies,
}
use dost_review_api.Life.Woven.Holds.{
  HoldsGroups, HoldsPhase, Holds, gate-IsHeldBy, admit-IsHeldBy, rest-HoldsGroups,
  claim-HoldsGroups,
}
use dost_review_api.Life.Woven.Steps.{claim-Kept, turn-Kept}
use dost_review_api.Life.Woven.Fits.{
  Fits, Fits-reviews, Fits-at, Fits-replace, Fits-drop, Fits-Single, sweep-Fits, start-Fits,
}

-- What a run's own step leaves.
abbrev Stands : Db → Active × Db → Type 0
Stands db (a, db') =
    Kept db.reviews db'.reviews × Holds db'.reviews a × (runs_on a.id db'.runs ≡ true)

claim-Stands :
    (settings : Settings) (env : Env) (a : Active) (db : Db)
    → HasUniqueIds db.reviews
    → runs_on a.id db.runs ≡ true
    → Stands db (claim_step settings env a db)
unfolding claim_step
claim-Stands settings env a db unique on =
    elim (Bool-cases (not env.engine_loads || env.claim_fails)) [
      | inl stops ↦ rw stops (Kept-refl db.reviews, tt, on)
      | inr goes_on ↦ rw goes_on (
        claim-Kept settings env a.id db,
        claim-HoldsGroups settings env a.id db unique,
        (unfold claimed_work in on),
      )
    ]

turn-runs :
    (settings : Settings) (env : Env) (group : Group) (w : Work)
    → (process_profile settings env group w).1.db.runs ≡ w.db.runs
turn-runs settings env group w =
    process_profile-keeps settings env (λ v. v.db.runs ≡ w.db.runs)
      (λ will_retry row v h. unfold fail_row in ground (arith, h))
      (λ g o v h. unfold commit_profile in ground (arith, h)) group w refl

after-HoldsPhase :
    (id : Uuid) (rows : List Row) (e : Ended) (groups : List Group)
    → HoldsGroups id rows groups
    → HoldsPhase id rows (phase_after e groups)
unfolding phase_after
after-HoldsPhase id rows finished groups holds = holds
after-HoldsPhase id rows raised groups holds = tt

turn-Stands :
    (settings : Settings) (env : Env) (a : Active) (group : Group) (groups : List Group) (db : Db)
    → HoldsGroups a.id db.reviews (group ∷ groups)
    → runs_on a.id db.runs ≡ true
    → Stands db (turn_step settings env a group groups db)
unfolding turn_step
turn-Stands settings env a group groups db holds on =
    let w : Work = record { db = db; stats = a.stats } in
    let after = process_profile settings env group w in
    (
      turn-Kept settings env a.id group groups w holds,
      after-HoldsPhase a.id after.1.db.reviews after.0 groups
          (rest-HoldsGroups a.id settings env group groups w holds),
      ap (runs_on a.id) (turn-runs settings env group w) ∙ on,
    )

asked_for :
    (rows : List Row) (a : Active) (p : Phase) → a.phase ≡ p → Holds rows a → HoldsPhase a.id rows p
asked_for rows a p e holds = subst (HoldsPhase a.id rows) e holds

-- What is kept from the first database on.
abbrev Woven : Db → Db → List Active → Type 0
Woven s db runs =
    Fits db runs
    × HasUniqueIds db.reviews
    × ((k : Uuid) → Life (find k s.reviews) (find k db.reviews))

module _ (s : Db) (unique : HasUniqueIds s.reviews) where
  then_Woven :
      (db db' : Db) (runs runs' : List Active)
      → Woven s db runs
      → (Fits db runs → HasUniqueIds db.reviews → Fits db' runs' × Kept db.reviews db'.reviews)
      → Woven s db' runs'
  then_Woven db db' runs runs' (fits, u, lives) step =
      let (fits', kept) = step fits u in
      let (u', lives') =
        Kept-trans s.reviews db.reviews db'.reviews (λ v. (u, lives)) kept unique in
      (fits', u', lives')

  own_step :
      (db : Db) (before after : List Active) (a : Active) (next : Active × Db) (runs : List Active)
      → runs ≡ before ++ a ∷ after
      → Woven s db runs
      → (Holds db.reviews a
          → runs_on a.id db.runs ≡ true
          → HasUniqueIds db.reviews
          → Stands db next)
      → Woven s next.1 (before ++ next.0 ∷ after)
  own_step db before after a (a', db') runs e woven step =
      then_Woven db db' runs (before ++ a' ∷ after) woven (λ fits u.
        let fits' : Fits db (before ++ a ∷ after) = subst (Fits db) e fits in
        let (holds, on) = Fits-at db before after a fits' in
        let (kept, holds', on') = step holds on u in
        (Fits-replace db db' before after a a' fits' (holds', on'), kept))

  pub weaves-Woven : {db : Db} {runs : List Active} → Weaves s db runs → Woven s db runs
  weaves-Woven begins = (tt, unique, (λ k. Life-refl (find k s.reviews)))
  weaves-Woven (submits {db} {runs} before settings env review event_id quiet) =
      let rows : List Row = (Gate.gate_and_store settings env review event_id db.reviews).1 in
      then_Woven db (with_reviews db rows) runs runs (weaves-Woven before) (λ fits u. (
        Fits-reviews db rows runs
            (λ id k. gate-IsHeldBy id db.reviews settings env review event_id k quiet) fits,
        gate-Kept env review event_id settings db.reviews quiet,
      ))
  weaves-Woven (admits {db} {runs} before settings env review event_id error) =
      let rows : List Row = (Gate.admit settings env review event_id error db.reviews).1 in
      then_Woven db (with_reviews db rows) runs runs (weaves-Woven before) (λ fits u. (
        Fits-reviews db rows runs
            (λ id k. admit-IsHeldBy id db.reviews settings env review event_id error k) fits,
        admit-Kept env review event_id settings error db.reviews,
      ))
  weaves-Woven (starts {db} {runs} before renv fresh prompt) =
      let (result, db') = start_batch renv fresh db in
      then_Woven db db' runs (with_started result runs) (weaves-Woven before)
        (λ fits u. (start-Fits renv fresh db runs prompt fits, start-Kept renv fresh db))
  weaves-Woven (claims {db} {runs} before settings env others more a e phase) =
      own_step db others more a (claim_step settings env a db) runs e (weaves-Woven before)
        (λ holds on u. claim-Stands settings env a db u on)
  weaves-Woven (asks {db} {runs} before env others more a group groups e phase loads) =
      own_step db others more a (ask_step a group groups db, db) runs e (weaves-Woven before)
        (λ holds on u. (
          Kept-refl db.reviews,
          (unfold ask_step in asked_for db.reviews a (working (group ∷ groups)) phase holds),
          (unfold ask_step in on),
        ))
  weaves-Woven (unread {db} {runs} before settings env others more a group groups e phase fails) =
      own_step db others more a (turn_step settings env a group groups db) runs e
        (weaves-Woven before)
        (λ holds on u.
          turn-Stands settings env a group groups db
            (asked_for db.reviews a (working (group ∷ groups)) phase holds) on)
  weaves-Woven (answers {db} {runs} before settings env others more a group groups input e phase) =
      let env' : Env = answering env (env.process_reputation input) in
      own_step db others more a (turn_step settings env' a group groups db) runs e
        (weaves-Woven before)
        (λ holds on u.
          turn-Stands settings env' a group groups db
            (asked_for db.reviews a (asked group groups input) phase holds) on)
  weaves-Woven (ends {db} {runs} before renv others more a end e phase) =
      let db' : Db = end_step renv a end db in
      then_Woven db db' runs (others ++ more) (weaves-Woven before) (λ fits u. (
        Fits-drop db db' others more a (subst (Fits db) e fits),
        (unfold end_step in finish-Kept renv a.id (end, record { db = db; stats = a.stats })),
      ))
  weaves-Woven (sweeps {db} {runs} before renv prompt) =
      then_Woven db (sweep_stale_batches renv db).1 runs runs (weaves-Woven before)
        (λ fits u. (sweep-Fits renv db runs prompt fits, sweep-Kept renv db))
  weaves-Woven (dies {db} {runs} before) =
      then_Woven db db runs [] (weaves-Woven before) (λ fits u. (tt, Kept-refl db.reviews))

-- At most one run is going on, and its entry is RUNNING, however submissions, starts, sweeps, the single
-- steps of runs and deaths of the process follow one another. Ids are unique at first, nothing is going on
-- at first, and no start or sweep comes so late that the run that is going on is stale.
pub woven-Single :
    (s db : Db) (runs : List Active)
    → HasUniqueIds s.reviews
    → Weaves s db runs
    → (length runs ≤ 1) × All (λ a. runs_on a.id db.runs ≡ true) runs
woven-Single s db runs unique steps = Fits-Single db runs (weaves-Woven s unique steps).0

-- A review that is COMMITTED or FAILED stays in the table as it is, in all its columns, however
-- submissions, of its own id too, starts, sweeps, the single steps of runs (claim, question to the engine,
-- answer, end) and deaths of the process follow one another. Ids are unique at first, nothing is going on
-- at first, and no start or sweep comes so late that the run that is going on is stale.
pub woven-Final :
    (s db : Db) (runs : List Active) (k : Uuid) (r : Row)
    → HasUniqueIds s.reviews
    → Weaves s db runs
    → find k s.reviews ≡ some r
    → is_final r.status ≡ true
    → find k db.reviews ≡ some r
woven-Final s db runs k r unique steps stored final =
    ((weaves-Woven s unique steps).2 k).1 r stored final
