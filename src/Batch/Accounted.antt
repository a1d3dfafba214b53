-- ===== src/Batch/Accounted.antt =====
-- During a run, every review that is PROCESSING is accounted for: by the run, or by one that is RUNNING.
use dost_review_api.Prelude.{
  ◌+◌, eq_iff, ◌≡◌, refl, Bool, true, false, not, ◌||◌, List, arith, leb, ltb, All, Bool-cases, inl,
  inr,
}
use dost_review_api.Models.{Uuid}
use dost_review_api.Review.{Row, is_processing, in_batch, update_where}
use dost_review_api.Batch.Database.{BatchRun, Db, elem, Output}
use dost_review_api.Batch.Claim.{
  Group, claim, claimed_ids, claimed, mark_processing, group_by_profile,
}
use dost_review_api.Batch.Engine.{
  Settings, Env, Work, has_id, fail_row, dead_letter, requeue_row, ids_of, mark_committed,
  commit_profile, claimed_work, run_batch,
}
use dost_review_api.Batch.Updates.{All-update, All-mono}
use dost_review_api.Batch.Keeps.{run_profiles-keeps}
use dost_review_api.Batch.Orphans.{is_owned, HasNoOrphans}

-- The review is in PROCESSING under this run, or under another RUNNING one.
abbrev pub IsAccounted : Uuid → List BatchRun → Row → Type 0
IsAccounted id runs r =
    is_processing r.status ≡ true → (is_owned runs r.batch_id || in_batch id r.batch_id) ≡ true

module _ (settings : Settings) (env : Env) (id : Uuid) (runs : List BatchRun) where
  -- Statements that take rows out of PROCESSING keep the others accounted for.
  update-IsAccounted :
      (p : Row → Bool) (f : Row → Row) (rows : List Row)
      → ((r : Row) → is_processing (f r).status ≡ false)
      → All (IsAccounted id runs) rows
      → All (IsAccounted id runs) (update_where p f rows)
  update-IsAccounted p f rows frees =
      All-update (IsAccounted id runs) (IsAccounted id runs) p f rows (λ r h.
        elim (Bool-cases (p r)) [
          | inl met ↦ rw met (λ busy. absurd (cc (busy, frees r)))
          | inr other ↦ rw other h
        ])

  abbrev pub Accounted : Work → Type 0
  Accounted w = All (IsAccounted id runs) w.db.reviews × (w.db.runs ≡ runs)

  pub fail_row-Accounted :
      (will_retry : Bool) (row : Row) (w : Work)
      → Accounted w
      → Accounted (fail_row settings env.now will_retry row w)
  unfolding fail_row dead_letter requeue_row
  fail_row-Accounted will_retry row w h =
      let n = row.retry_count + 1 in
      elim (Bool-cases (not will_retry || leb settings.max_review_retries n)) [
        | inl dead ↦ rw dead (
          update-IsAccounted (has_id row.id) (dead_letter n env.now) w.db.reviews (λ r. refl) h.0,
          h.1,
        )
        | inr retry ↦
            rw retry
              (update-IsAccounted (has_id row.id) (requeue_row n) w.db.reviews (λ r. refl) h.0, h.1)
      ]

  pub commit-Accounted :
      (group : Group) (o : Output) (w : Work)
      → Accounted w
      → Accounted (commit_profile env group o w).1
  unfolding commit_profile mark_committed
  commit-Accounted group o w h =
      elim (Bool-cases (env.commit_fails group.0 || ltb 50 o.reputation_score)) [
        | inl stops ↦ rw stops h
        | inr goes_on ↦ rw goes_on (
          update-IsAccounted (λ r. elem r.id (ids_of group.1)) (mark_committed env.now) w.db.reviews
              (λ r. refl) h.0,
          h.1,
        )
      ]

pub claimed-Accounted :
    (settings : Settings) (env : Env) (id : Uuid) (db : Db)
    → HasNoOrphans db
    → Accounted settings env id db.runs (claimed_work settings env id db)
unfolding claimed_work claim mark_processing
claimed-Accounted settings env id db h =
    let ids = claimed_ids env.locked settings.max_reviews_per_batch db.reviews in
    (
      All-update (λ r. is_processing r.status ≡ true → is_owned db.runs r.batch_id ≡ true)
          (IsAccounted id db.runs) (λ r. elem r.id ids) (mark_processing id) db.reviews
          (λ r owned. elim (Bool-cases (elem r.id ids)) [
            | inl met ↦ rw met (λ busy. ground (arith, eq_iff id id))
            | inr other ↦ rw other (λ busy. ground (arith, owned busy))
          ])
          h,
      refl,
    )

pub run_batch-Accounted :
    (settings : Settings) (env : Env) (id : Uuid) (db : Db)
    → HasNoOrphans db
    → Accounted settings env id db.runs (run_batch settings env id db).1
unfolding run_batch
run_batch-Accounted settings env id db h =
    elim (Bool-cases (not env.engine_loads || env.claim_fails)) [
      | inl stops ↦ rw stops (
        All-mono (λ r. is_processing r.status ≡ true → is_owned db.runs r.batch_id ≡ true)
            (IsAccounted id db.runs) db.reviews (λ r owned busy. ground (arith, owned busy)) h,
        refl,
      )
      | inr goes_on ↦ rw goes_on (
          run_profiles-keeps settings env (Accounted settings env id db.runs)
            (fail_row-Accounted settings env id db.runs) (commit-Accounted settings env id db.runs)
            (group_by_profile (claimed env.locked settings.max_reviews_per_batch id db.reviews))
            (claimed_work settings env id db) (claimed-Accounted settings env id db h))
    ]
