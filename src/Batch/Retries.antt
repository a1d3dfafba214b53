-- ===== src/Batch/Retries.antt =====
-- Retries: a bound on them, and what the second handling of failed rows does to the first.
use dost_review_api.Prelude.{
  ℕ, ◌+◌, ◌<◌, ◌≡◌, Bool, true, not, ◌||◌, some, List, arith, leb, ltb, All, Bool-cases, inl, inr,
}
use dost_review_api.Models.{Uuid}
use dost_review_api.Review.{Row, Status, is_gated, is_processing, find, update_where}
use dost_review_api.Batch.Database.{Db, elem, Output}
use dost_review_api.Batch.Claim.{
  Group, claim, claimed, claimed_ids, mark_processing, is_claimable, group_by_profile,
}
use dost_review_api.Batch.Engine.{
  Settings, Env, Work, has_id, fail_row, dead_letter, requeue_row, ids_of, mark_committed,
  commit_profile, claimed_work, run_batch,
}
use dost_review_api.Batch.Updates.{All-update, All-both, All-found}
use dost_review_api.Batch.Keeps.{run_profiles-keeps}
use dost_review_api.Batch.Chosen.{elem-chosen, find-keep}
use dost_review_api.Review.Laws.{HasUniqueIds}

-- A review that is still to be processed.
abbrev pub is_open : Status → Bool
is_open s = is_gated s || is_processing s

claimable-open :
    (locked : Uuid → Bool) (r : Row) → is_claimable locked r ≡ true → is_open r.status ≡ true
unfolding is_claimable
claimable-open locked r h = ground arith

-- An open review has failed fewer times than the limit.
abbrev pub IsBounded : ℕ → List Row → Type 0
IsBounded limit = All (λ r. is_open r.status ≡ true → r.retry_count < limit)

update-IsBounded :
    (limit : ℕ) (p : Row → Bool) (f : Row → Row) (rows : List Row)
    → ((r : Row)
        → (is_open r.status ≡ true → r.retry_count < limit)
        → is_open (f r).status ≡ true
        → (f r).retry_count < limit)
    → IsBounded limit rows
    → IsBounded limit (update_where p f rows)
update-IsBounded limit p f rows keeps =
    All-update (λ r. is_open r.status ≡ true → r.retry_count < limit)
      (λ r. is_open r.status ≡ true → r.retry_count < limit) p f rows
      (λ r h. elim (Bool-cases (p r)) [ inl met ↦ rw met (keeps r h) | inr other ↦ rw other h ])

module _ (settings : Settings) (env : Env) where
  abbrev Bounded : Work → Type 0
  Bounded w = IsBounded settings.max_review_retries w.db.reviews

  fail_row-Bounded :
      (will_retry : Bool) (row : Row) (w : Work)
      → Bounded w
      → Bounded (fail_row settings env.now will_retry row w)
  unfolding fail_row dead_letter requeue_row
  fail_row-Bounded will_retry row w h =
      let n = row.retry_count + 1 in
      elim (Bool-cases (not will_retry || leb settings.max_review_retries n)) [
        | inl dead ↦ rw dead (
            update-IsBounded settings.max_review_retries (has_id row.id) (dead_letter n env.now)
              w.db.reviews (λ r b e. absurd (ground arith)) h)
        | inr retry ↦ rw retry (
            update-IsBounded settings.max_review_retries (has_id row.id) (requeue_row n)
              w.db.reviews (λ r b e. ground arith) h)
      ]

  commit-Bounded :
      (group : Group) (o : Output) (w : Work) → Bounded w → Bounded (commit_profile env group o w).1
  unfolding commit_profile mark_committed
  commit-Bounded group o w h =
      elim (Bool-cases (env.commit_fails group.0 || ltb 50 o.reputation_score)) [
        | inl stops ↦ rw stops h
        | inr goes_on ↦ rw goes_on (
            update-IsBounded settings.max_review_retries (λ r. elem r.id (ids_of group.1))
              (mark_committed env.now) w.db.reviews (λ r b e. absurd (ground arith)) h)
      ]

-- A claim takes GATED rows, which are open, and changes no count.
claim-IsBounded :
    (limit n : ℕ) (locked : Uuid → Bool) (batch_id : Uuid) (rows : List Row)
    → HasUniqueIds rows
    → IsBounded limit rows
    → IsBounded limit (claim locked n batch_id rows)
unfolding claim mark_processing
claim-IsBounded limit n locked batch_id rows unique h =
    let ids = claimed_ids locked n rows in
    All-update (λ r. (is_open r.status ≡ true → r.retry_count < limit) × (find r.id rows ≡ some r))
      (λ r. is_open r.status ≡ true → r.retry_count < limit) (λ r. elem r.id ids)
      (mark_processing batch_id) rows
      (λ r both. elim (Bool-cases (elem r.id ids)) [
        | inl met ↦ rw met (λ e. both.0 (
            claimable-open locked r (
              find-keep (is_claimable locked) r.id rows r unique both.1
                (elem-chosen locked n r.id rows met))))
        | inr other ↦ rw other both.0
      ])
      (All-both (λ r. is_open r.status ≡ true → r.retry_count < limit)
        (λ r. find r.id rows ≡ some r) rows h (All-found rows unique))

-- Where ids are unique, a run keeps every open review below the limit of retries, however it ends: a
-- review that has failed as often as the limit says is neither GATED nor PROCESSING any more.
pub run_batch-IsBounded :
    (settings : Settings) (env : Env) (batch_id : Uuid) (db : Db)
    → HasUniqueIds db.reviews
    → IsBounded settings.max_review_retries db.reviews
    → IsBounded settings.max_review_retries (run_batch settings env batch_id db).1.db.reviews
unfolding run_batch claimed_work
run_batch-IsBounded settings env batch_id db unique h =
    elim (Bool-cases (not env.engine_loads || env.claim_fails)) [
      | inl stops ↦ rw stops h
      | inr goes_on ↦ rw goes_on (
          run_profiles-keeps settings env (Bounded settings env) (fail_row-Bounded settings env)
            (commit-Bounded settings env)
            (group_by_profile
              (claimed env.locked settings.max_reviews_per_batch batch_id db.reviews))
            (unfold claimed_work in claimed_work settings env batch_id db)
            (claim-IsBounded settings.max_review_retries settings.max_reviews_per_batch env.locked
              batch_id db.reviews unique h))
    ]
