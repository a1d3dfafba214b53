-- ===== src/Gate/RateLimit.antt =====
-- The rate limit over time: what steps 5 and 6 promise of any window of the table.
use dost_review_api.Prelude.{
  ℕ, ◌+◌, ◌≤◌, ◌<◌, ◌==◌, eq_iff, ◌≡◌, Bool, true, not, ◌&&◌, Option, some, none, List, arith,
  count, leb, Bool-cases, inl, inr,
}
use dost_review_api.Models.{Uuid, Instant, DostReview, hours}
use dost_review_api.Review.{ErrorCode, self_review, rate_limited, Row, is_rejected}
use dost_review_api.Review.Laws.{count-upsert-le, count-upsert-refused, count_mono}
use dost_review_api.Gate.Profiles.{Refusal, validate_profiles}
use dost_review_api.Gate.{
  Settings, Env, rejected_row, merge_rejected, accepted_row, merge_accepted, persist_rejected,
  insert_gated, in_window, admit, gate_transaction, gate_and_store,
}

-- An accepted review of the pair, received in the `len` from `start` on.
unfoldable pub received_in : Uuid → Uuid → Instant → ℕ → Row → Bool
received_in rater target start len r =
    r.rater_profile_id == rater
    && r.target_profile_id == target
    && leb start r.received_at
    && leb r.received_at (start + len)
    && not (is_rejected r.status)

-- No window of that length holds more than `limit` accepted reviews of one rater for one target.
abbrev pub IsLimited : ℕ → ℕ → List Row → Type 0
IsLimited limit len rows =
    (rater target : Uuid) (start : Instant)
    → count (received_in rater target start len) rows ≤ limit

module _ (rater target : Uuid) (start : Instant) (len : ℕ) where
  persist-count :
      (env : Env) (review : DostReview) (event_id : Option Uuid) (code : ErrorCode)
      (rows : List Row)
      → count (received_in rater target start len) (persist_rejected env review event_id code rows)
        ≤ count (received_in rater target start len) rows
  unfolding persist_rejected rejected_row merge_rejected received_in
  persist-count env review event_id code rows = ground (
    arith,
    count-upsert-refused (received_in rater target start len)
        (rejected_row review event_id code env.db_now) (merge_rejected event_id code env.db_now)
        rows (ground arith) (λ r e. ground arith),
  )

  -- What the gate has counted covers the window that a new row falls into.
  window-le :
      (env : Env) (review : DostReview) (event_id : Option Uuid) (skew : ℕ) (rows : List Row)
      → env.py_now ≤ env.db_now + skew
      → len + skew ≤ hours 24
      → received_in rater target start len (accepted_row review event_id env.db_now) ≡ true
      → count (received_in rater target start len) rows
        ≤ count (in_window review.rater_profile_id review.target_profile_id env.py_now) rows
  unfolding received_in in_window accepted_row
  window-le env review event_id skew rows clock room new =
      count_mono (received_in rater target start len)
        (in_window review.rater_profile_id review.target_profile_id env.py_now) rows
        (λ r h. ground (
          arith,
          eq_iff r.rater_profile_id rater,
          eq_iff review.rater_profile_id rater,
          eq_iff r.target_profile_id target,
          eq_iff review.target_profile_id target,
          eq_iff r.rater_profile_id review.rater_profile_id,
          eq_iff r.target_profile_id review.target_profile_id,
        ))

  insert-count :
      (env : Env) (review : DostReview) (event_id : Option Uuid) (skew limit : ℕ) (rows : List Row)
      → env.py_now ≤ env.db_now + skew
      → len + skew ≤ hours 24
      → count (in_window review.rater_profile_id review.target_profile_id env.py_now) rows < limit
      → count (received_in rater target start len) rows ≤ limit
      → count (received_in rater target start len) (insert_gated env review event_id rows).1 ≤ limit
  unfolding insert_gated
  insert-count env review event_id skew limit rows clock room under before =
      let p = received_in rater target start len in
      let new = accepted_row review event_id env.db_now in
      let merge = merge_accepted review event_id env.db_now in
      elim (Bool-cases (p new)) [
        | inl counted ↦ ground (
          arith,
          count-upsert-le p new merge rows,
          window-le env review event_id skew rows clock room counted,
        )
        | inr not_counted ↦ ground (
          arith,
          count-upsert-refused p new merge rows not_counted
              (λ r e. unfold received_in accepted_row merge_accepted in not_counted),
        )
      ]

  admit-count :
      (settings : Settings) (env : Env) (review : DostReview) (event_id : Option Uuid)
      (error : Option Refusal) (skew : ℕ) (rows : List Row)
      → env.py_now ≤ env.db_now + skew
      → len + skew ≤ hours 24
      → count (received_in rater target start len) rows ≤ settings.rate_limit_per_rater_per_target
      → count (received_in rater target start len) (admit settings env review event_id error rows).1
        ≤ settings.rate_limit_per_rater_per_target
  unfolding admit
  admit-count settings env review event_id (some (code, message)) skew rows clock room before =
      omega (arith, persist-count env review event_id code rows)
  admit-count settings env review event_id none skew rows clock room before = ground (
    arith,
    persist-count env review event_id rate_limited rows,
    insert-count env review event_id skew settings.rate_limit_per_rater_per_target rows clock room,
  )

-- If the application's clock is at most `skew` ahead of the start of the transaction, a submission
-- keeps the limit in every window that is shorter than 24 hours by `skew`, whatever its outcome, and
-- if the transactions that commit meanwhile keep it.
pub gate-IsLimited :
    (settings : Settings) (env : Env) (review : DostReview) (event_id : Option Uuid) (skew len : ℕ)
    (rows : List Row)
    → env.py_now ≤ env.db_now + skew
    → len + skew ≤ hours 24
    → IsLimited settings.rate_limit_per_rater_per_target len rows
    → IsLimited settings.rate_limit_per_rater_per_target len (env.others rows)
    → IsLimited settings.rate_limit_per_rater_per_target len
        (gate_and_store settings env review event_id rows).1
unfolding gate_and_store gate_transaction
gate-IsLimited settings env review event_id skew len rows clock room h h' rater target start =
    let error : Option Refusal =
      validate_profiles env.onboard review.target_profile_id review.rater_profile_id in
    ground (
      arith,
      h rater target start,
      persist-count rater target start len env review event_id self_review rows,
      admit-count rater target start len settings env review event_id error skew (env.others rows)
          clock room (h' rater target start),
    )
