-- ===== src/Life/Submission.antt =====
-- What a submission does to a review.
use dost_review_api.Prelude.{
  ◌==◌, eq_iff, ◌≡◌, refl, subst, Bool, true, false, Option, none, some, List, [], ◌∷◌, arith,
  if◌then◌else◌, Bool-cases, inl, inr,
}
use dost_review_api.Models.{Uuid, DostReview}
use dost_review_api.Review.{
  ErrorCode, self_review, rate_limited, Row, is_rejected, find, upsert_rejected,
}
use dost_review_api.Review.Laws.{HasUniqueIds, find-upsert}
use dost_review_api.Gate.Profiles.{GateResult, Refusal, validate_profiles}
use dost_review_api.Gate.{
  Settings, Env, rejected_row, merge_rejected, accepted_row, merge_accepted, persist_rejected,
  insert_gated, admit, is_duplicate, gate_transaction, gate_and_store,
}
use dost_review_api.Gate.Outcome.{find-persist, find-insert}
use dost_review_api.Life.{Life}
use dost_review_api.Life.Laws.{Life-refl, rejected-Life, accepted-Life, Kept, Kept-refl}

upsert-HasUniqueIds :
    (new : Row) (merge : Row → Row) (rows : List Row)
    → ((r : Row) → (merge r).id ≡ r.id)
    → HasUniqueIds rows
    → HasUniqueIds (upsert_rejected new merge rows).0
unfolding upsert_rejected
upsert-HasUniqueIds new merge [] keeps u = unfold find in (refl, tt)
upsert-HasUniqueIds new merge (r ∷ rows) keeps u = elim (Bool-cases (r.id == new.id)) [
  | inl same ↦ rw same (elim (Bool-cases (is_rejected r.status)) [
    | inl old ↦ rw old (rw (keeps r) u.0, u.1)
    | inr live ↦ rw live u
  ])
  | inr other ↦
      let apart : (new.id == r.id) ≡ false =
        ground (arith, other, eq_iff r.id new.id, eq_iff new.id r.id) in
      rw other (
        rw (find-upsert new merge keeps r.id rows, apart) u.0,
        upsert-HasUniqueIds new merge rows keeps u.1,
      )
]

-- One key of an upsert.
at_key :
    (k new : Uuid) (rows : List Row) (p : Option Row)
    → Life (find new rows) p
    → Life (find k rows) (if new == k then p else find k rows)
at_key k new rows p life = elim (Bool-cases (new == k)) [
  | inl same ↦
      let key : new ≡ k = (eq_iff new k).0 same in
      rw same (subst (λ (j : Uuid). Life (find j rows) p) key life)
  | inr other ↦ rw other (Life-refl (find k rows))
]

if-Kept :
    (rows : List Row) (b : Bool) (x y : GateResult × List Row)
    → Kept rows x.1
    → Kept rows y.1
    → Kept rows (if b then x else y).1
if-Kept rows true x y h j = h
if-Kept rows false x y h j = j

module _ (env : Env) (review : DostReview) (event_id : Option Uuid) where
  persist-Life :
      (code : ErrorCode) (k : Uuid) (rows : List Row)
      → Life (find k rows) (find k (persist_rejected env review event_id code rows))
  persist-Life code k rows =
      rw (find-persist env review event_id code k rows) (elim (Bool-cases env.persist_fails) [
        | inl fails ↦ rw fails (Life-refl (find k rows))
        | inr writes ↦ rw writes (
            at_key k review.review_id rows _ (
              rejected-Life (rejected_row review event_id code env.db_now)
                (merge_rejected event_id code env.db_now) (find review.review_id rows)
                (unfold rejected_row in refl) (λ r. unfold merge_rejected in refl)))
      ])

  insert-Life :
      (k : Uuid) (rows : List Row)
      → Life (find k rows) (find k (insert_gated env review event_id rows).1)
  insert-Life k rows =
      rw (find-insert env review event_id k rows) (elim (Bool-cases env.insert_fails) [
        | inl fails ↦ rw fails (Life-refl (find k rows))
        | inr writes ↦ rw writes (
            at_key k review.review_id rows _ (
              accepted-Life (accepted_row review event_id env.db_now)
                (merge_accepted review event_id env.db_now) (find review.review_id rows)
                (unfold accepted_row in refl) (λ r. unfold merge_accepted in refl)))
      ])

  persist-Kept :
      (code : ErrorCode) (rows : List Row)
      → Kept rows (persist_rejected env review event_id code rows)
  persist-Kept code rows u = (
    (unfold persist_rejected in
        elim (Bool-cases env.persist_fails) [
          | inl fails ↦ rw fails u
          | inr writes ↦ rw writes (
              upsert-HasUniqueIds (rejected_row review event_id code env.db_now)
                (merge_rejected event_id code env.db_now) rows (λ r. unfold merge_rejected in refl)
                u)
        ]),
    (λ k. persist-Life code k rows),
  )

  pub insert_gated-rows :
      (rows : List Row)
      → (insert_gated env review event_id rows).1 ≡ (
          if env.insert_fails
          then rows
          else (upsert_rejected
              (accepted_row review event_id env.db_now)
              (merge_accepted review event_id env.db_now)
              rows).0)
  unfolding insert_gated accepted_row merge_accepted
  insert_gated-rows rows = ground arith

  insert-Kept : (rows : List Row) → Kept rows (insert_gated env review event_id rows).1
  insert-Kept rows u = (
    (rw (insert_gated-rows rows) (elim (Bool-cases env.insert_fails) [
      | inl fails ↦ rw fails u
      | inr writes ↦ rw writes (
          upsert-HasUniqueIds (accepted_row review event_id env.db_now)
            (merge_accepted review event_id env.db_now) rows (λ r. unfold merge_accepted in refl) u)
    ])),
    (λ k. insert-Life k rows),
  )

  pub admit-Kept :
      (settings : Settings) (error : Option Refusal) (rows : List Row)
      → Kept rows (admit settings env review event_id error rows).1
  unfolding admit
  admit-Kept settings (some (code, message)) rows = persist-Kept code rows
  admit-Kept settings none rows =
      if-Kept rows _ _ _ (persist-Kept rate_limited rows) (insert-Kept rows)

  pub gate-Kept :
      (settings : Settings) (rows : List Row)
      → env.others rows ≡ rows
      → Kept rows (gate_and_store settings env review event_id rows).1
  unfolding gate_and_store gate_transaction
  gate-Kept settings rows quiet =
      let error : Option Refusal =
        validate_profiles env.onboard review.target_profile_id review.rater_profile_id in
      elim (Bool-cases (review.rater_profile_id == review.target_profile_id)) [
        | inl own ↦ rw own (persist-Kept self_review rows)
        | inr other ↦ rw other (elim (Bool-cases (is_duplicate review.review_id rows)) [
          | inl stored ↦ rw stored (Kept-refl rows)
          | inr free ↦ rw (free, quiet) (admit-Kept settings error rows)
        ])
      ]
