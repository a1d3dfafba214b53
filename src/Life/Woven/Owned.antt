-- ===== src/Life/Woven/Owned.antt =====
-- Whose a review is: one in PROCESSING belongs to a RUNNING run, and if that run is going on, the
-- review is in a group that it still has to process.
use dost_review_api.Prelude.{
  ◌==◌, eq_iff, ◌≡◌, refl, ap, subst, ◌∙◌, Bool, true, false, not, ◌||◌, Option, none, some, List,
  [], ◌∷◌, All, arith, Bool-cases, inl, inr,
}
use dost_review_api.Models.{Uuid}
use dost_review_api.Review.{Row, is_processing, in_batch}
use dost_review_api.Batch.Database.{EngineInput, BatchRun, Db, elem}
use dost_review_api.Batch.Claim.{Group}
use dost_review_api.Batch.Engine.{
  Settings, Env, Ended, finished, raised, Work, claimed_work, process_profile,
}
use dost_review_api.Batch.Runner.{RunnerEnv}
use dost_review_api.Batch.Updates.{All-mono}
use dost_review_api.Batch.Keeps.{process_profile-keeps}
use dost_review_api.Batch.Held.{is_held, HeldWithin, IsSettled, group_ids}
use dost_review_api.Batch.Taken.{claimed_work-HeldWithin}
use dost_review_api.Batch.Settled.{process_profile-frees}
use dost_review_api.Batch.Orphans.{runs_on, is_owned, HasNoOrphans}
use dost_review_api.Batch.Accounted.{
  IsAccounted, Accounted, fail_row-Accounted, commit-Accounted, claimed-Accounted,
}
use dost_review_api.Batch.Runs.{finish-HasNoOrphans}
use dost_review_api.Life.Woven.{
  Phase, started, working, asked, broken, Active, claim_step, phase_after, turn_step, ended_as,
  end_step,
}
use dost_review_api.Life.Woven.Arrivals.{SparesIdle}

-- The reviews that a run still has to process.
abbrev pub is_left : Phase → Uuid → Bool
is_left started k = false
is_left (working groups) k = elem k (group_ids groups)
is_left (asked group groups input) k = elem k (group_ids (group ∷ groups))
is_left broken k = true

abbrev pub HoldsLeft : Uuid → Phase → List Row → Type 0
HoldsLeft id phase = All (λ r. is_held id r ≡ true → is_left phase r.id ≡ true)

abbrev pub IsOwned : List BatchRun → Row → Type 0
IsOwned runs r = is_processing r.status ≡ true → is_owned runs r.batch_id ≡ true

abbrev pub Owns : Db → Active → Type 0
Owns db a = HoldsLeft a.id a.phase db.reviews

pub left-SparesIdle :
    (a : Active) → SparesIdle (λ r. is_held a.id r ≡ true → is_left a.phase r.id ≡ true)
left-SparesIdle a r idle held = absurd (ground arith)

pub IsOwned-SparesIdle : (runs : List BatchRun) → SparesIdle (IsOwned runs)
IsOwned-SparesIdle runs r idle busy = absurd (cc (idle, busy))

-- A run that is RUNNING owns what it accounts for.
accounted_owned :
    (id : Uuid) (runs : List BatchRun) (o : Option Uuid)
    → runs_on id runs ≡ true
    → (is_owned runs o || in_batch id o) ≡ true
    → is_owned runs o ≡ true
accounted_owned id runs none on h = ground (arith, h)
accounted_owned id runs (some b) on h = elim (Bool-cases (b == id)) [
  | inl same ↦ ap (λ (j : Uuid). runs_on j runs) ((eq_iff b id).0 same) ∙ on
  | inr other ↦ ground (arith, h, other)
]

accounted-HasNoOrphans :
    (id : Uuid) (db : Db)
    → runs_on id db.runs ≡ true
    → All (IsAccounted id db.runs) db.reviews
    → HasNoOrphans db
accounted-HasNoOrphans id db on =
    All-mono (IsAccounted id db.runs) (IsOwned db.runs) db.reviews
      (λ r h busy. accounted_owned id db.runs r.batch_id on (h busy))

pub owned-IsAccounted :
    (id : Uuid) (db : Db) → HasNoOrphans db → All (IsAccounted id db.runs) db.reviews
owned-IsAccounted id db =
    All-mono (IsOwned db.runs) (IsAccounted id db.runs) db.reviews
      (λ r h busy. ground (arith, h busy))

started-IsSettled : (id : Uuid) (rows : List Row) → HoldsLeft id started rows → IsSettled id rows
started-IsSettled id rows =
    All-mono (λ r. is_held id r ≡ true → false ≡ true) (λ r. is_held id r ≡ false) rows
      (λ r h. ground (arith, h))

broken-HoldsLeft : (id : Uuid) (rows : List Row) → HoldsLeft id broken rows
broken-HoldsLeft id [] = tt
broken-HoldsLeft id (r ∷ rows) = ((λ held. refl), broken-HoldsLeft id rows)

-- What a run's own step leaves.
abbrev pub Leaves : Active × Db → Type 0
Leaves (a, db) = HasNoOrphans db × Owns db a

pub claim-Leaves :
    (settings : Settings) (env : Env) (a : Active) (db : Db)
    → runs_on a.id db.runs ≡ true
    → a.phase ≡ started
    → HasNoOrphans db
    → Owns db a
    → Leaves (claim_step settings env a db)
unfolding claim_step
claim-Leaves settings env a db on phase h own =
    elim (Bool-cases (not env.engine_loads || env.claim_fails)) [
      | inl stops ↦ rw stops (h, broken-HoldsLeft a.id db.reviews)
      | inr goes_on ↦
          let settled : IsSettled a.id db.reviews =
            started-IsSettled a.id db.reviews
              (subst (λ (p : Phase). HoldsLeft a.id p db.reviews) phase own) in
          let (rows, same) = claimed-Accounted settings env a.id db h in
          rw goes_on (
            accounted-HasNoOrphans a.id (claimed_work settings env a.id db).db (rw same on)
                (rw same rows),
            claimed_work-HeldWithin a.id settings env db settled,
          )
    ]

after-HoldsLeft :
    (id : Uuid) (groups : List Group) (r : Ended × Work)
    → (r.0 ≡ finished → HeldWithin id (group_ids groups) r.1.db.reviews)
    → HoldsLeft id (phase_after r.0 groups) r.1.db.reviews
unfolding phase_after
after-HoldsLeft id groups (finished, w) h = h refl
after-HoldsLeft id groups (raised, w) h = broken-HoldsLeft id w.db.reviews

pub working-HeldWithin :
    (a : Active) (group : Group) (groups : List Group) (db : Db)
    → a.phase ≡ working (group ∷ groups)
    → Owns db a
    → HeldWithin a.id (group_ids (group ∷ groups)) db.reviews
working-HeldWithin a group groups db phase own =
    subst (λ (p : Phase). HoldsLeft a.id p db.reviews) phase own

pub asked-HeldWithin :
    (a : Active) (group : Group) (groups : List Group) (input : EngineInput) (db : Db)
    → a.phase ≡ asked group groups input
    → Owns db a
    → HeldWithin a.id (group_ids (group ∷ groups)) db.reviews
asked-HeldWithin a group groups input db phase own =
    subst (λ (p : Phase). HoldsLeft a.id p db.reviews) phase own

pub turn-Leaves :
    (settings : Settings) (env : Env) (a : Active) (group : Group) (groups : List Group) (db : Db)
    → runs_on a.id db.runs ≡ true
    → HeldWithin a.id (group_ids (group ∷ groups)) db.reviews
    → HasNoOrphans db
    → Leaves (turn_step settings env a group groups db)
unfolding turn_step
turn-Leaves settings env a group groups db on held h =
    let w : Work = record { db = db; stats = a.stats } in
    let after = process_profile settings env group w in
    let (rows, same) =
      process_profile-keeps settings env (Accounted settings env a.id db.runs)
        (fail_row-Accounted settings env a.id db.runs) (commit-Accounted settings env a.id db.runs)
        group w (owned-IsAccounted a.id db h, refl) in
    (
      accounted-HasNoOrphans a.id after.1.db (rw same on) (rw same rows),
      after-HoldsLeft a.id groups after
          (λ ends. process_profile-frees a.id settings env group (group_ids groups) w ends held),
    )

ended-IsSettled :
    (id : Uuid) (phase : Phase) (e : Ended) (rows : List Row)
    → ended_as phase ≡ some e
    → HoldsLeft id phase rows
    → e ≡ finished
    → IsSettled id rows
unfolding ended_as
ended-IsSettled id started e rows ends own fin = cc
ended-IsSettled id (working []) e rows ends own fin =
    All-mono (λ r. is_held id r ≡ true → elem r.id [] ≡ true) (λ r. is_held id r ≡ false) rows
      (λ r h. unfold elem in ground (arith, h)) own
ended-IsSettled id (working (g ∷ groups)) e rows ends own fin = cc
ended-IsSettled id (asked group groups input) e rows ends own fin = cc
ended-IsSettled id broken e rows ends own fin = absurd (ground arith)

pub end-HasNoOrphans :
    (renv : RunnerEnv) (a : Active) (e : Ended) (db : Db)
    → renv.requeue_fails ≡ false
    → ended_as a.phase ≡ some e
    → HasNoOrphans db
    → Owns db a
    → HasNoOrphans (end_step renv a e db)
unfolding end_step
end-HasNoOrphans renv a e db ok ends h own =
    finish-HasNoOrphans renv a.id (e, record { db = db; stats = a.stats }) ok
      (owned-IsAccounted a.id db h) (ended-IsSettled a.id a.phase e db.reviews ends own)
