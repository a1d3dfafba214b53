-- ===== src/Batch/Failures.antt =====
-- `_handle_failed_reviews`, row by row.
use dost_review_api.Prelude.{
  ◌+◌, ◌==◌, eq_iff, ◌≡◌, refl, Bool, not, ◌||◌, Option, some, none, List, [], ◌∷◌, arith, leb,
  Bool-cases, inl, inr, if◌then◌else◌,
}
use dost_review_api.Models.{Uuid, Instant}
use dost_review_api.Review.{Row, find, update_where}
use dost_review_api.Review.Laws.{HasUniqueIds}
use dost_review_api.Batch.Engine.{
  Settings, Env, Attempt, Work, finished, has_id, fail_row, dead_letter, requeue_row, handle_failed,
}

-- What becomes of a stored row when the claimed `row` of that id has failed: one more failure, and FAILED
-- if there is to be no retry or the limit is reached, else GATED.
abbrev pub failed_once : Settings → Instant → Bool → Row → Row → Row
failed_once settings now will_retry row =
    if not will_retry || leb settings.max_review_retries (row.retry_count + 1)
    then dead_letter (row.retry_count + 1) now
    else requeue_row (row.retry_count + 1)

abbrev pub on_stored : (Row → Row) → Option Row → Option Row
on_stored f none = none
on_stored f (some r) = some (f r)

-- The stored row of a claimed one, if the id is among the claimed rows.
abbrev pub after_failure : Settings → Instant → Bool → Option Row → Option Row → Option Row
after_failure settings now will_retry none stored = stored
after_failure settings now will_retry (some row) stored =
    on_stored (failed_once settings now will_retry row) stored

module _ (settings : Settings) (env : Env) (will_retry : Bool) where
  find-update_id :
      (f : Row → Row)
      → ((r : Row) → (f r).id ≡ r.id)
      → (key k : Uuid) (rows : List Row)
      → find k (update_where (has_id key) f rows)
        ≡ (if key == k then on_stored f (find k rows) else find k rows)
  unfolding has_id find update_where
  find-update_id f keeps_id key k [] = ground arith
  find-update_id f keeps_id key k (r ∷ rows) = elim (Bool-cases (r.id == key)) [
    | inl met ↦ rw met (
        ground (
          arith,
          keeps_id r,
          find-update_id f keeps_id key k rows,
          eq_iff (f r).id k,
          eq_iff r.id k,
          eq_iff r.id key,
          eq_iff key k,
        ))
    | inr other ↦ rw other (
        ground (
          arith,
          find-update_id f keeps_id key k rows,
          eq_iff r.id k,
          eq_iff r.id key,
          eq_iff key k,
        ))
  ]

  pub find-fail_row :
      (row : Row) (k : Uuid) (w : Work)
      → find k (fail_row settings env.now will_retry row w).db.reviews ≡ (
          if row.id == k
          then on_stored (failed_once settings env.now will_retry row) (find k w.db.reviews)
          else find k w.db.reviews)
  unfolding fail_row
  find-fail_row row k w =
      let n = row.retry_count + 1 in
      elim (Bool-cases (not will_retry || leb settings.max_review_retries n)) [
        | inl dead ↦ rw dead (
            find-update_id (dead_letter n env.now) (λ r. unfold dead_letter in refl) row.id k
              w.db.reviews)
        | inr retry ↦
            rw retry (
              find-update_id (requeue_row n) (λ r. unfold requeue_row in refl) row.id k
                w.db.reviews)
      ]

  -- Where the claimed rows have unique ids: when the handling of failed rows ends, each stored row of
  -- a claimed one has one more failure than that, and is FAILED or GATED as the flag and the limit
  -- say; every other row is as it was.
  pub find-handle_failed :
      (attempt : Attempt) (rows : List Row) (k : Uuid) (w : Work)
      → HasUniqueIds rows
      → (handle_failed settings env attempt will_retry rows w).0 ≡ finished
      → find k (handle_failed settings env attempt will_retry rows w).1.db.reviews
        ≡ after_failure settings env.now will_retry (find k rows) (find k w.db.reviews)
  unfolding handle_failed find
  find-handle_failed attempt [] k w unique e = refl
  find-handle_failed attempt (row ∷ rows) k w unique e =
      elim (Bool-cases (env.update_fails attempt row.id)) [
        | inl stops ↦ absurd (ground arith)
        | inr goes_on ↦
            rw
              (
                goes_on,
                find-handle_failed attempt rows k (fail_row settings env.now will_retry row w)
                    unique.1 (rw goes_on at e),
              )
              (elim (Bool-cases (row.id == k)) [
                | inl same ↦
                    let key : row.id ≡ k = (eq_iff row.id k).0 same in
                    let absent : find k rows ≡ none = rw (← key) unique.0 in
                    rw (same, absent, find-fail_row row k w) (rw same)
                | inr other ↦ rw (other, find-fail_row row k w) (rw other)
              ])
      ]
