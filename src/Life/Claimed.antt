-- ===== src/Life/Claimed.antt =====
-- What a requeue and a run of the batch do to a review.
use dost_review_api.Prelude.{
  ◌==◌, ◌≡◌, refl, sym, ap, subst, ◌∙◌, Bool, true, false, not, ◌&&◌, ◌||◌, Option, none, some,
  List, arith, ltb, if◌then◌else◌, Bool-cases, Option-cases, inl, inr,
}
use dost_review_api.Models.{Uuid}
use dost_review_api.Review.{
  Row, Status, gated, processing, is_rejected, is_processing, is_gated, find, update_where,
}
use dost_review_api.Review.Laws.{HasUniqueIds}
use dost_review_api.Batch.Database.{Db, elem, Output}
use dost_review_api.Batch.Claim.{
  Group, claimed, claimed_ids, is_claimable, mark_processing, group_by_profile,
}
use dost_review_api.Batch.Engine.{
  Settings, Env, Work, fail_row, dead_letter, requeue_row, mark_committed, commit_profile, ids_of,
  run_profiles, claimed_work, run_batch,
}
use dost_review_api.Batch.Runner.{in_batches, back_to_gated, requeue}
use dost_review_api.Batch.Chosen.{find-update, updated, elem-chosen, find-keep, not-elem-find}
use dost_review_api.Batch.Failures.{failed_once, on_stored, find-fail_row}
use dost_review_api.Batch.Results.{find-commit}
use dost_review_api.Batch.Keeps.{run_profiles-keeps}
use dost_review_api.Batch.Others.{run_profiles-Same}
use dost_review_api.Batch.Advances.{in_groups, stored_claim}
use dost_review_api.Batch.Ids.{ids-update, unique-ids, absent-ids, run_batch-ids}
use dost_review_api.Life.{Life, Moves, stay, step, returned}
use dost_review_api.Life.Laws.{Life-refl, Life-eq, open-Life, gated-Life, Kept}

kept_id : (r : Row) → (back_to_gated r).id ≡ r.id
unfolding back_to_gated
kept_id r = refl

requeued-Life :
    (ids : List Uuid) (o : Option Row)
    → Life o
        (updated (λ r. is_processing r.status && in_batches ids r.batch_id) back_to_gated kept_id o)
requeued-Life ids none = Life-refl none
requeued-Life ids (some r) =
    elim (Bool-cases (is_processing r.status && in_batches ids r.batch_id)) [
      | inl met ↦
          let was : processing ≡ r.status = ground arith in
          rw met (
            open-Life r (some (back_to_gated r)) (ground arith) (
              unfold back_to_gated in
              subst (λ (a : Status). Moves (some a) (some gated)) was (step stay returned)))
      | inr other ↦ rw other (Life-refl (some r))
    ]

pub requeue-Kept : (ids : List Uuid) (rows : List Row) → Kept rows (requeue ids rows)
unfolding requeue
requeue-Kept ids rows u = (
  unique-ids rows (requeue ids rows)
      (unfold requeue in
        ids-update (λ r. is_processing r.status && in_batches ids r.batch_id) back_to_gated rows
          kept_id)
      u,
  (λ k.
      rw
        (find-update (λ r. is_processing r.status && in_batches ids r.batch_id) back_to_gated
          kept_id k rows)
        (requeued-Life ids (find k rows))),
)

-- Stored, and accepted.
abbrev pub IsLive : Uuid → Work → Type 0
IsLive k w = (s : Row) × (find k w.db.reviews ≡ some s) × (is_rejected s.status ≡ false)

live-stored :
    (k : Uuid) (rows after : List Row) (c : Bool) (f : Row → Row)
    → ((r : Row) → is_rejected (f r).status ≡ false)
    → find k after ≡ (if c then on_stored f (find k rows) else find k rows)
    → (s : Row) × (find k rows ≡ some s) × (is_rejected s.status ≡ false)
    → (s : Row) × (find k after ≡ some s) × (is_rejected s.status ≡ false)
live-stored k rows after true f live e (s, at, h) = (f s, e ∙ rw at refl, live s)
live-stored k rows after false f live e (s, at, h) = (s, e ∙ at, h)

module _ (settings : Settings) (env : Env) (k : Uuid) where
  pub fail_row-IsLive :
      (will_retry : Bool) (row : Row) (w : Work)
      → IsLive k w
      → IsLive k (fail_row settings env.now will_retry row w)
  fail_row-IsLive will_retry row w =
      live-stored k w.db.reviews (fail_row settings env.now will_retry row w).db.reviews
        (row.id == k) (failed_once settings env.now will_retry row)
        (λ r. unfold dead_letter in unfold requeue_row in ground arith)
        (find-fail_row settings env will_retry row k w)

  pub commit-IsLive :
      (group : Group) (o : Output) (w : Work)
      → IsLive k w
      → IsLive k (commit_profile env group o w).1
  unfolding commit_profile
  commit-IsLive group o w h =
      elim (Bool-cases (env.commit_fails group.0 || ltb 50 o.reputation_score)) [
        | inl stops ↦ rw stops h
        | inr goes_on ↦ rw goes_on (
            live-stored k w.db.reviews
              (update_where (λ r. elem r.id (ids_of group.1)) (mark_committed env.now) w.db.reviews)
              (elem k (ids_of group.1)) (mark_committed env.now)
              (λ r. unfold mark_committed in refl)
              (find-commit env.now (ids_of group.1) k w.db.reviews) h)
      ]

module _ (settings : Settings) (env : Env) (batch_id : Uuid) (db : Db) (k : Uuid) (r : Row)
    (unique : HasUniqueIds db.reviews) (stored : find k db.reviews ≡ some r) where
  abbrev taken : List Uuid
  taken = claimed_ids env.locked settings.max_reviews_per_batch db.reviews

  abbrev groups : List Group
  groups = group_by_profile (claimed env.locked settings.max_reviews_per_batch batch_id db.reviews)

  pub taken-is_gated : elem k taken ≡ true → is_gated r.status ≡ true
  taken-is_gated is =
      let claimable : is_claimable env.locked r ≡ true =
        find-keep (is_claimable env.locked) k db.reviews r unique stored
          (elem-chosen env.locked settings.max_reviews_per_batch k db.reviews is) in
      unfold is_claimable in ground (arith, claimable)

  claimed_work-IsLive : elem k taken ≡ true → IsLive k (claimed_work settings env batch_id db)
  unfolding claimed_work
  claimed_work-IsLive is = (
    mark_processing batch_id r,
    stored_claim settings env batch_id db k r unique stored ∙ rw is refl,
    (unfold mark_processing in refl),
  )

  loop-Life : Life (find k db.reviews) (
      find k
        (run_profiles settings env groups (claimed_work settings env batch_id db)).1.db.reviews)
  loop-Life = elim (Bool-cases (elem k taken)) [
    | inl is ↦
        let (s, at, live) =
          run_profiles-keeps settings env (IsLive k) (fail_row-IsLive settings env k)
            (commit-IsLive settings env k) groups (claimed_work settings env batch_id db)
            (claimed_work-IsLive is) in
        rw (stored, at) (gated-Life r s (taken-is_gated is) live)
    | inr other ↦ Life-eq (find k db.reviews) _ (
        run_profiles-Same settings env k groups (claimed_work settings env batch_id db)
          (in_groups settings env batch_id db k r unique stored ∙ other)
        ∙ (unfold claimed_work in
            stored_claim settings env batch_id db k r unique stored ∙ rw other (sym stored)))
  ]

pub run_batch-Life :
    (settings : Settings) (env : Env) (batch_id : Uuid) (db : Db) (k : Uuid)
    → HasUniqueIds db.reviews
    → Life (find k db.reviews) (find k (run_batch settings env batch_id db).1.db.reviews)
run_batch-Life settings env batch_id db k unique = elim (Option-cases (find k db.reviews)) [
  | inl gone ↦ Life-eq (find k db.reviews) _ (
      absent-ids k (run_batch settings env batch_id db).1.db.reviews
        (ap (elem k) (run_batch-ids settings env batch_id db) ∙ not-elem-find k db.reviews gone)
      ∙ sym gone)
  | inr (r, stored) ↦
      unfold run_batch in
      elim (Bool-cases (not env.engine_loads || env.claim_fails)) [
        | inl stops ↦ rw stops (Life-refl (find k db.reviews))
        | inr goes_on ↦ rw goes_on (loop-Life settings env batch_id db k r unique stored)
      ]
]
