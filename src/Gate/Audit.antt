-- ===== src/Gate/Audit.antt =====
-- What a submission leaves in the table: accepted rows stay, rejections are recorded and do not block.
use dost_review_api.Prelude.{
  ◌≤◌, ◌⊎◌, String, count, eq_iff, eq_refl, ◌≡◌, refl, true, false, Option, none, some, List, arith,
  Bool-cases, inl, inr,
}
use dost_review_api.Models.{Uuid, Instant, DostReview}
use dost_review_api.Review.{
  ErrorCode, self_review, rate_limited, Row, gated, gate_rejected, is_rejected, find,
}
use dost_review_api.Review.Laws.{upserted, id-find, count-upsert-refused}
use dost_review_api.Gate.Profiles.{passed, refused, Refusal, validate_profiles}
use dost_review_api.Gate.{
  Settings, Env, rejected_row, merge_rejected, accepted_row, merge_accepted, stored_multimedia,
  persist_rejected, insert_gated, in_window, admit, gate_transaction, gate_and_store,
}
use dost_review_api.Gate.Outcome.{
  IsFree, IsFree-iff, gate_passes_iff, find-persist, find-insert, insert_gated-result,
}

module _ (env : Env) (review : DostReview) (event_id : Option Uuid) (k : Uuid) (r : Row) where
  persist-keeps_live :
      (code : ErrorCode) (rows : List Row)
      → find k rows ≡ some r
      → is_rejected r.status ≡ false
      → find k (persist_rejected env review event_id code rows) ≡ some r
  persist-keeps_live code rows e live =
      ground (arith, find-persist env review event_id code k rows, eq_iff review.review_id k)

  insert-keeps_live :
      (rows : List Row)
      → find k rows ≡ some r
      → is_rejected r.status ≡ false
      → find k (insert_gated env review event_id rows).1 ≡ some r
  insert-keeps_live rows e live =
      ground (arith, find-insert env review event_id k rows, eq_iff review.review_id k)

  pub admit-keeps_live :
      (settings : Settings) (error : Option Refusal) (rows : List Row)
      → find k rows ≡ some r
      → is_rejected r.status ≡ false
      → find k (admit settings env review event_id error rows).1 ≡ some r
  unfolding admit
  admit-keeps_live settings (some (code, message)) rows e live = persist-keeps_live code rows e live
  admit-keeps_live settings none rows e live =
      ground (arith, persist-keeps_live rate_limited rows e live, insert-keeps_live rows e live)

  -- An accepted row that other transactions leave alone is as it was after any submission, of its own
  -- id too and whatever the answer.
  pub find-gate_live :
      (settings : Settings) (rows : List Row)
      → find k rows ≡ some r
      → find k (env.others rows) ≡ some r
      → is_rejected r.status ≡ false
      → find k (gate_and_store settings env review event_id rows).1 ≡ some r
  unfolding gate_and_store gate_transaction
  find-gate_live settings rows e e' live =
      let error : Option Refusal =
        validate_profiles env.onboard review.target_profile_id review.rater_profile_id in
      ground (
        arith,
        persist-keeps_live self_review rows e live,
        admit-keeps_live settings error (env.others rows) e' live,
      )

-- The row that an accepted submission leaves under its id.
pub record IsStored (review : DostReview) (event_id : Option Uuid) (now : Instant) (r : Row)
    : Type 0 where
  pub id : r.id ≡ review.review_id
  pub target : r.target_profile_id ≡ review.target_profile_id
  pub rater : r.rater_profile_id ≡ review.rater_profile_id
  pub text : r.review_text ≡ review.review_text
  pub multimedia : r.multimedia_json ≡ stored_multimedia review.multimedia
  pub status : r.status ≡ gated
  pub reason : r.gate_reason ≡ none
  pub event : r.event_id ≡ event_id
  pub created : r.created_at ≡ review.created_at
  pub received : r.received_at ≡ now

-- The row that a refused one leaves, the rest of which may stem from an earlier refusal.
pub record IsRecorded (code : ErrorCode) (event_id : Option Uuid) (now : Instant) (r : Row)
    : Type 0 where
  pub status : r.status ≡ gate_rejected
  pub reason : r.gate_reason ≡ some code
  pub event : r.event_id ≡ event_id
  pub received : r.received_at ≡ now

upserted-IsStored :
    (review : DostReview) (event_id : Option Uuid) (now : Instant) (o : Option Row)
    → IsFree o
    → ((r : Row) → o ≡ some r → r.id ≡ review.review_id)
    → IsStored review event_id now
        (upserted (accepted_row review event_id now) (merge_accepted review event_id now) o)
unfolding accepted_row merge_accepted
upserted-IsStored review event_id now none f i = ground arith
upserted-IsStored review event_id now (some r) f i = ground (arith, i r refl)

upserted-IsRecorded :
    (review : DostReview) (event_id : Option Uuid) (code : ErrorCode) (now : Instant)
    (o : Option Row)
    → IsFree o
    → IsRecorded code event_id now
        (upserted (rejected_row review event_id code now) (merge_rejected event_id code now) o)
unfolding rejected_row merge_rejected
upserted-IsRecorded review event_id code now none f = ground arith
upserted-IsRecorded review event_id code now (some r) f = ground arith

module _ (settings : Settings) (env : Env) (review : DostReview) (event_id : Option Uuid)
    (rows : List Row) where
  passed-insert :
      (gate_and_store settings env review event_id rows).0 ≡ passed
      → gate_and_store settings env review event_id rows
        ≡ insert_gated env review event_id (env.others rows)
  unfolding gate_and_store gate_transaction admit
  passed-insert h = ground arith

  -- An accepted review stands in the table as GATED, with the fields of the submission.
  pub gate_passes-IsStored :
      (gate_and_store settings env review event_id rows).0 ≡ passed
      → (r : Row) × (find review.review_id (gate_and_store settings env review event_id rows).1
          ≡ some r)
        × IsStored review event_id env.db_now r
  gate_passes-IsStored h =
      let a = (gate_passes_iff settings env review event_id rows).0 h in
      let old = find review.review_id (env.others rows) in
      (
        upserted (accepted_row review event_id env.db_now)
            (merge_accepted review event_id env.db_now) old,
        rw (passed-insert h) (
            ground (
              arith,
              find-insert env review event_id review.review_id (env.others rows),
              eq_iff review.review_id review.review_id,
            )),
        upserted-IsStored review event_id env.db_now old a.still_free
            (λ r e. id-find review.review_id (env.others rows) r e),
      )

  -- With a free id and no other transaction in between, a refusal only records itself.
  pub refused-persist :
      (code : ErrorCode) (message : String)
      → env.others rows ≡ rows
      → IsFree (find review.review_id rows)
      → (gate_and_store settings env review event_id rows).0 ≡ refused code message
      → (gate_and_store settings env review event_id rows).1
        ≡ persist_rejected env review event_id code rows
  unfolding gate_and_store gate_transaction admit
  refused-persist code message quiet free h = ground (
    arith,
    (IsFree-iff review.review_id rows).1 free,
    insert_gated-result env review event_id rows,
  )

  -- Where no other transaction commits meanwhile, a refused submission of a free id is on file as
  -- GATE_REJECTED with its reason, its event and the time of the refusal, unless the write for the
  -- audit itself fails; then the table is unchanged.
  pub gate_refuses-IsRecorded :
      (code : ErrorCode) (message : String)
      → env.others rows ≡ rows
      → IsFree (find review.review_id rows)
      → (gate_and_store settings env review event_id rows).0 ≡ refused code message
      → ((env.persist_fails ≡ true) × ((gate_and_store settings env review event_id rows).1 ≡ rows))
        ⊎ ((r : Row) × (find review.review_id (gate_and_store settings env review event_id rows).1
              ≡ some r)
            × IsRecorded code event_id env.db_now r)
  gate_refuses-IsRecorded code message quiet free h =
      let stays = refused-persist code message quiet free h in
      elim (Bool-cases env.persist_fails) [
        | inl fails ↦ inl (fails, unfold persist_rejected in ground arith)
        | inr writes ↦ inr (
          upserted (rejected_row review event_id code env.db_now)
              (merge_rejected event_id code env.db_now) (find review.review_id rows),
          rw stays (
              ground (
                arith,
                find-persist env review event_id code review.review_id rows,
                eq_iff review.review_id review.review_id,
              )),
          upserted-IsRecorded review event_id code env.db_now (find review.review_id rows) free,
        )
      ]

  pub refused-IsFree :
      (code : ErrorCode)
      → IsFree (find review.review_id rows)
      → IsFree (find review.review_id (persist_rejected env review event_id code rows))
  refused-IsFree code free =
      rw (find-persist env review event_id code review.review_id rows)
        (elim (Bool-cases env.persist_fails) [
          | inl fails ↦ rw fails free
          | inr writes ↦
              rw (writes, eq_refl)
                (upserted-IsRecorded review event_id code env.db_now (find review.review_id rows)
                  free).status
        ])

  pub refused-count :
      (code : ErrorCode) (rater target : Uuid) (now : Instant)
      → count (in_window rater target now) (persist_rejected env review event_id code rows)
        ≤ count (in_window rater target now) rows
  unfolding persist_rejected in_window rejected_row merge_rejected
  refused-count code rater target now = ground (
    arith,
    count-upsert-refused (in_window rater target now) (rejected_row review event_id code env.db_now)
        (merge_rejected event_id code env.db_now) rows (ground arith) (λ r e. ground arith),
  )
