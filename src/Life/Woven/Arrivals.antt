-- ===== src/Life/Woven/Arrivals.antt =====
-- A submission makes no review PROCESSING, and the sweep none either.
use dost_review_api.Prelude.{
  ◌==◌, ◌≡◌, refl, Bool, true, false, ◌&&◌, Option, none, some, List, [], ◌∷◌, arith, All,
  if◌then◌else◌, Bool-cases, inl, inr,
}
use dost_review_api.Models.{Uuid, DostReview}
use dost_review_api.Review.{
  ErrorCode, self_review, rate_limited, Row, is_rejected, is_processing, upsert_rejected,
}
use dost_review_api.Gate.Profiles.{GateResult, Refusal, validate_profiles}
use dost_review_api.Gate.{
  Settings, Env, rejected_row, merge_rejected, accepted_row, merge_accepted, persist_rejected,
  insert_gated, admit, is_duplicate, gate_transaction, gate_and_store,
}
use dost_review_api.Batch.Updates.{All-update}
use dost_review_api.Batch.Runner.{in_batches, back_to_gated, requeue}
use dost_review_api.Life.Submission.{insert_gated-rows}

-- What is asked of the rows in PROCESSING only.
abbrev pub SparesIdle : (Row → Type 0) → Type 0
SparesIdle P = (r : Row) → is_processing r.status ≡ false → P r

module _ (P : Row → Type 0) (spares : SparesIdle P) where
  upsert-All :
      (new : Row) (merge : Row → Row) (rows : List Row)
      → is_processing new.status ≡ false
      → ((r : Row) → is_rejected r.status ≡ true → is_processing (merge r).status ≡ false)
      → All P rows
      → All P (upsert_rejected new merge rows).0
  unfolding upsert_rejected
  upsert-All new merge [] e m all = (spares new e, tt)
  upsert-All new merge (r ∷ rows) e m all = elim (Bool-cases (r.id == new.id)) [
    | inl same ↦ rw same (elim (Bool-cases (is_rejected r.status)) [
      | inl old ↦ rw old (spares (merge r) (m r old), all.1)
      | inr live ↦ rw live all
    ])
    | inr other ↦ rw other (all.0, upsert-All new merge rows e m all.1)
  ]

  pub requeue-All : (ids : List Uuid) (rows : List Row) → All P rows → All P (requeue ids rows)
  unfolding requeue back_to_gated
  requeue-All ids rows =
      All-update P P (λ r. is_processing r.status && in_batches ids r.batch_id) back_to_gated rows
        (λ r h. elim (Bool-cases (is_processing r.status && in_batches ids r.batch_id)) [
          | inl met ↦ rw met (spares (back_to_gated r) refl)
          | inr other ↦ rw other h
        ])

  if-All :
      (b : Bool) (x y : GateResult × List Row)
      → All P x.1
      → All P y.1
      → All P (if b then x else y).1
  if-All true x y h j = h
  if-All false x y h j = j

  module _ (env : Env) (review : DostReview) (event_id : Option Uuid) where
    persist-All :
        (code : ErrorCode) (rows : List Row)
        → All P rows
        → All P (persist_rejected env review event_id code rows)
    unfolding persist_rejected rejected_row merge_rejected
    persist-All code rows all = elim (Bool-cases env.persist_fails) [
      | inl fails ↦ rw fails all
      | inr writes ↦ rw writes (
          upsert-All (rejected_row review event_id code env.db_now)
            (merge_rejected event_id code env.db_now) rows refl (λ r old. ground (arith, old)) all)
    ]

    insert-All : (rows : List Row) → All P rows → All P (insert_gated env review event_id rows).1
    unfolding accepted_row merge_accepted
    insert-All rows all =
        rw (insert_gated-rows env review event_id rows) (elim (Bool-cases env.insert_fails) [
          | inl fails ↦ rw fails all
          | inr writes ↦ rw writes (
              upsert-All (accepted_row review event_id env.db_now)
                (merge_accepted review event_id env.db_now) rows refl (λ r old. refl) all)
        ])

    pub admit-All :
        (settings : Settings) (error : Option Refusal) (rows : List Row)
        → All P rows
        → All P (admit settings env review event_id error rows).1
    unfolding admit
    admit-All settings (some (code, message)) rows all = persist-All code rows all
    admit-All settings none rows all =
        if-All _ _ _ (persist-All rate_limited rows all) (insert-All rows all)

    pub gate-All :
        (settings : Settings) (rows : List Row)
        → env.others rows ≡ rows
        → All P rows
        → All P (gate_and_store settings env review event_id rows).1
    unfolding gate_and_store gate_transaction
    gate-All settings rows quiet all =
        let error : Option Refusal =
          validate_profiles env.onboard review.target_profile_id review.rater_profile_id in
        elim (Bool-cases (review.rater_profile_id == review.target_profile_id)) [
          | inl own ↦ rw own (persist-All self_review rows all)
          | inr other ↦ rw other (elim (Bool-cases (is_duplicate review.review_id rows)) [
            | inl stored ↦ rw stored all
            | inr free ↦ rw (free, quiet) (admit-All settings error rows all)
          ])
        ]
