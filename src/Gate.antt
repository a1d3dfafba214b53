-- ===== src/Gate.antt =====
-- app/gate.py: the check of a submitted review and its insertion into the table `review`.
pub mod Profiles
pub mod Outcome
pub mod Audit
pub mod RateLimit
pub mod Retry
mod Tests
use dost_review_api.Prelude.{
  ℕ, ◌+◌, String, Bool, true, false, not, ◌&&◌, ◌==◌, Option, none, some, List, [], ◌∷◌, count, leb,
  if◌then◌else◌,
}
use dost_review_api.Models.{Uuid, Text, Instant, DostReview, hours}
use dost_review_api.Review.{
  ErrorCode, self_review, duplicate, rate_limited, Row, gated, gate_rejected, is_rejected, find,
  upsert_rejected,
}
use dost_review_api.Gate.Profiles.{
  Onboard, GateResult, passed, refused, raised, Refusal, validate_profiles,
}

-- `settings.rate_limit_per_rater_per_target` of app/config.py, by default 5.
pub record Settings : Type 0 where
  pub rate_limit_per_rater_per_target : ℕ

-- What a call meets. `py_now` is `datetime.now`, `db_now` is `NOW()`, the start of the transaction.
-- `others` is what other transactions commit while this one waits after its duplicate check.
-- `persist_fails` says that the statement of `_persist_rejected` raises, `insert_fails` that the INSERT of
-- step 6 does, as for a text with U+0000.
pub record Env : Type 0 where
  pub onboard : Onboard
  pub py_now : Instant
  pub db_now : Instant
  pub others : List Row → List Row
  pub persist_fails : Bool
  pub insert_fails : Bool

-- `json.dumps(review.multimedia) if review.multimedia else None`: an empty list is stored as NULL.
unfoldable pub stored_multimedia : Option (List Text) → Option (List Text)
stored_multimedia none = none
stored_multimedia (some []) = none
stored_multimedia (some (x ∷ xs)) = some (x ∷ xs)

-- The row that `_persist_rejected` inserts, and the one that it makes of a rejected row.
unfoldable pub rejected_row : DostReview → Option Uuid → ErrorCode → Instant → Row
rejected_row review event_id reason now = record {
  id = review.review_id;
  target_profile_id = review.target_profile_id;
  rater_profile_id = review.rater_profile_id;
  rater_weight = 100;
  review_text = review.review_text;
  multimedia_json = none;
  status = gate_rejected;
  gate_reason = some reason;
  batch_id = none;
  event_id = event_id;
  created_at = review.created_at;
  received_at = now;
  processed_at = none;
  retry_count = 0;
}

unfoldable pub merge_rejected : Option Uuid → ErrorCode → Instant → Row → Row
merge_rejected event_id reason now r = record r {
  gate_reason = some reason;
  event_id = event_id;
  received_at = now;
}

-- `_persist_rejected`: an error of the statement is logged and swallowed.
unfoldable pub persist_rejected : Env → DostReview → Option Uuid → ErrorCode → List Row → List Row
unfolding rejected_row merge_rejected
persist_rejected env review event_id reason rows =
    if env.persist_fails
    then rows
    else (upsert_rejected (rejected_row review event_id reason env.db_now)
        (merge_rejected event_id reason env.db_now) rows).0

-- The row that step 6 inserts, and the one that it makes of a rejected row.
unfoldable pub accepted_row : DostReview → Option Uuid → Instant → Row
unfolding stored_multimedia
accepted_row review event_id now = record {
  id = review.review_id;
  target_profile_id = review.target_profile_id;
  rater_profile_id = review.rater_profile_id;
  rater_weight = 100;
  review_text = review.review_text;
  multimedia_json = stored_multimedia review.multimedia;
  status = gated;
  gate_reason = none;
  batch_id = none;
  event_id = event_id;
  created_at = review.created_at;
  received_at = now;
  processed_at = none;
  retry_count = 0;
}

unfoldable pub merge_accepted : DostReview → Option Uuid → Instant → Row → Row
unfolding stored_multimedia
merge_accepted review event_id now r = record r {
  target_profile_id = review.target_profile_id;
  rater_profile_id = review.rater_profile_id;
  review_text = review.review_text;
  multimedia_json = stored_multimedia review.multimedia;
  status = gated;
  gate_reason = none;
  event_id = event_id;
  created_at = review.created_at;
  received_at = now;
}

-- Step 3: a row that is not GATE_REJECTED has the id already.
unfoldable pub is_duplicate : Uuid → List Row → Bool
is_duplicate k rows = elim (find k rows) [ none ↦ false | some r ↦ not (is_rejected r.status) ]

-- Step 5: the accepted rows of the pair that were received since `now - 24h`.
unfoldable pub in_window : Uuid → Uuid → Instant → Row → Bool
in_window rater target now r =
    r.rater_profile_id == rater
    && r.target_profile_id == target
    && leb now (r.received_at + hours 24)
    && not (is_rejected r.status)

-- Step 6, and the test of the command tag behind it.
unfoldable pub insert_gated : Env → DostReview → Option Uuid → List Row → GateResult × List Row
unfolding accepted_row merge_accepted
insert_gated env review event_id rows =
    let (rows', n) =
      upsert_rejected (accepted_row review event_id env.db_now)
        (merge_accepted review event_id env.db_now) rows in
    if env.insert_fails
    then (raised, rows)
    else if leb n 0
    then (refused duplicate "Review already submitted", rows')
    else (passed, rows')

-- Steps 4 to 6, on the rows as they are after the duplicate check.
unfoldable pub admit :
    Settings → Env → DostReview → Option Uuid → Option Refusal → List Row → GateResult × List Row
admit settings env review event_id (some (code, message)) rows =
    (refused code message, persist_rejected env review event_id code rows)
admit settings env review event_id none rows =
    if leb settings.rate_limit_per_rater_per_target
      (count (in_window review.rater_profile_id review.target_profile_id env.py_now) rows)
    then (
      refused rate_limited "Too many reviews for this target today",
      persist_rejected env review event_id rate_limited rows,
    )
    else insert_gated env review event_id rows

-- The transaction of steps 3 to 6.
unfoldable pub gate_transaction :
    Settings → Env → DostReview → Option Uuid → Option Refusal → List Row → GateResult × List Row
gate_transaction settings env review event_id profile_error rows =
    if is_duplicate review.review_id rows
    then (refused duplicate "Review already submitted", rows)
    else admit settings env review event_id profile_error (env.others rows)

-- `gate_and_store`.
unfoldable pub gate_and_store :
    Settings → Env → DostReview → Option Uuid → List Row → GateResult × List Row
gate_and_store settings env review event_id rows =
    if review.rater_profile_id == review.target_profile_id
    then (
      refused self_review "Cannot review yourself",
      persist_rejected env review event_id self_review rows,
    )
    else gate_transaction settings env review event_id
        (validate_profiles env.onboard review.target_profile_id review.rater_profile_id) rows
