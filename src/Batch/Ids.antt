-- ===== src/Batch/Ids.antt =====
-- A run keeps the ids of the table, row by row.
use dost_review_api.Prelude.{
  ◌+◌, ◌≡◌, refl, ap, ◌∙◌, Bool, false, not, ◌||◌, none, List, [], ◌∷◌, arith, leb, ltb, Bool-cases,
  inl, inr,
}
use dost_review_api.Models.{Uuid}
use dost_review_api.Review.{Row, find, update_where}
use dost_review_api.Review.Laws.{HasUniqueIds}
use dost_review_api.Batch.Database.{Db, elem, Output}
use dost_review_api.Batch.Claim.{
  Group, claim, claimed, claimed_ids, mark_processing, group_by_profile,
}
use dost_review_api.Batch.Engine.{
  Settings, Env, Work, has_id, dead_letter, requeue_row, fail_row, ids_of, mark_committed,
  commit_profile, claimed_work, run_batch,
}
use dost_review_api.Batch.Keeps.{run_profiles-keeps}
use dost_review_api.Batch.Chosen.{not-elem-find}

pub ids-update :
    (p : Row → Bool) (f : Row → Row) (rows : List Row)
    → ((r : Row) → (f r).id ≡ r.id)
    → ids_of (update_where p f rows) ≡ ids_of rows
unfolding update_where
ids-update p f [] h = refl
ids-update p f (r ∷ rows) h = ground (arith, h r, ids-update p f rows h)

-- A run keeps the ids, row by row.
module _ (settings : Settings) (env : Env) (ids : List Uuid) where
  pub fail_row-ids :
      (will_retry : Bool) (row : Row) (w : Work)
      → ids_of w.db.reviews ≡ ids
      → ids_of (fail_row settings env.now will_retry row w).db.reviews ≡ ids
  unfolding fail_row
  fail_row-ids will_retry row w h =
      let n = row.retry_count + 1 in
      elim (Bool-cases (not will_retry || leb settings.max_review_retries n)) [
        | inl e ↦ rw e (
            ids-update (has_id row.id) (dead_letter n env.now) w.db.reviews
              (λ r. unfold dead_letter in refl)
            ∙ h)
        | inr e ↦ rw e (
            ids-update (has_id row.id) (requeue_row n) w.db.reviews
              (λ r. unfold requeue_row in refl)
            ∙ h)
      ]

  pub commit-ids :
      (group : Group) (o : Output) (w : Work)
      → ids_of w.db.reviews ≡ ids
      → ids_of (commit_profile env group o w).1.db.reviews ≡ ids
  unfolding commit_profile
  commit-ids group o w h =
      elim (Bool-cases (env.commit_fails group.0 || ltb 50 o.reputation_score)) [
        | inl e ↦ rw e h
        | inr e ↦ rw e (
            ids-update (λ r. elem r.id (ids_of group.1)) (mark_committed env.now) w.db.reviews
              (λ r. unfold mark_committed in refl)
            ∙ h)
      ]

pub claim-ids :
    (settings : Settings) (env : Env) (batch_id : Uuid) (db : Db)
    → ids_of (claimed_work settings env batch_id db).db.reviews ≡ ids_of db.reviews
unfolding claimed_work claim mark_processing
claim-ids settings env batch_id db =
    ids-update (λ r. elem r.id (claimed_ids env.locked settings.max_reviews_per_batch db.reviews))
      (mark_processing batch_id) db.reviews (λ r. refl)

pub run_batch-ids :
    (settings : Settings) (env : Env) (batch_id : Uuid) (db : Db)
    → ids_of (run_batch settings env batch_id db).1.db.reviews ≡ ids_of db.reviews
unfolding run_batch
run_batch-ids settings env batch_id db =
    elim (Bool-cases (not env.engine_loads || env.claim_fails)) [
      | inl stops ↦ rw stops refl
      | inr goes_on ↦ rw goes_on (
          run_profiles-keeps settings env (λ w. ids_of w.db.reviews ≡ ids_of db.reviews)
            (fail_row-ids settings env (ids_of db.reviews))
            (commit-ids settings env (ids_of db.reviews))
            (group_by_profile
              (claimed env.locked settings.max_reviews_per_batch batch_id db.reviews))
            (claimed_work settings env batch_id db) (claim-ids settings env batch_id db))
    ]

pub absent-ids : (k : Uuid) (rows : List Row) → elem k (ids_of rows) ≡ false → find k rows ≡ none
unfolding elem find
absent-ids k [] h = refl
absent-ids k (r ∷ rows) h = ground (arith, absent-ids k rows)

pub unique-ids :
    (rows after : List Row) → ids_of after ≡ ids_of rows → HasUniqueIds rows → HasUniqueIds after
unique-ids [] [] e u = tt
unique-ids [] (s ∷ after) e u = cc
unique-ids (r ∷ rows) [] e u = cc
unique-ids (r ∷ rows) (s ∷ after) e u =
    let head : s.id ≡ r.id = cc in
    let tail : ids_of after ≡ ids_of rows = cc in
    let gone : elem s.id (ids_of after) ≡ false =
      ap (λ (j : Uuid). elem j (ids_of after)) head
      ∙ ap (elem r.id) tail
      ∙ not-elem-find r.id rows u.0 in
    (absent-ids s.id after gone, unique-ids rows after tail u.1)

-- A run leaves the runs to the runner.
pub run_batch-runs :
    (settings : Settings) (env : Env) (batch_id : Uuid) (db : Db)
    → (run_batch settings env batch_id db).1.db.runs ≡ db.runs
unfolding run_batch
run_batch-runs settings env batch_id db =
    elim (Bool-cases (not env.engine_loads || env.claim_fails)) [
      | inl stops ↦ rw stops refl
      | inr goes_on ↦ rw goes_on (
          run_profiles-keeps settings env (λ w. w.db.runs ≡ db.runs)
            (λ will_retry row w h. unfold fail_row in ground (arith, h))
            (λ group o w h. unfold commit_profile in ground (arith, h))
            (group_by_profile
              (claimed env.locked settings.max_reviews_per_batch batch_id db.reviews))
            (claimed_work settings env batch_id db) (unfold claimed_work in refl))
    ]
