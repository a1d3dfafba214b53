-- ===== src/Review.antt =====
-- The table `review` of migrations/001_initial.sql to 003_hardening.sql, and the SQL statements that
-- app/gate.py, app/batch_engine.py and app/batch_runner.py run on it.
pub mod Laws
use dost_review_api.Prelude.{
  ℕ, Bool, true, false, ◌==◌, Option, none, some, List, [], ◌∷◌, if◌then◌else◌,
}
use dost_review_api.Models.{Uuid, Text, Instant}

-- `chk_review_status`.
pub data Status : Type 0 where
  gated gate_rejected processing committed failed : Status

-- The codes of `GateResult.error_code`; a row keeps one as its `gate_reason`.
pub data ErrorCode : Type 0 where
  self_review duplicate rate_limited : ErrorCode
  target_not_found target_inactive rater_not_found rater_inactive : ErrorCode

-- `rater_weight` counts hundredths (DECIMAL(3,2)).
pub record Row : Type 0 where
  pub id : Uuid
  pub target_profile_id : Uuid
  pub rater_profile_id : Uuid
  pub rater_weight : ℕ
  pub review_text : Text
  pub multimedia_json : Option (List Text)
  pub status : Status
  pub gate_reason : Option ErrorCode
  pub batch_id : Option Uuid
  pub event_id : Option Uuid
  pub created_at : Instant
  pub received_at : Instant
  pub processed_at : Option Instant
  pub retry_count : ℕ

abbrev pub is_gated : Status → Bool
is_gated gated = true
is_gated _ = false

abbrev pub is_rejected : Status → Bool
is_rejected gate_rejected = true
is_rejected _ = false

abbrev pub is_processing : Status → Bool
is_processing processing = true
is_processing _ = false

abbrev pub in_batch : Uuid → Option Uuid → Bool
in_batch b none = false
in_batch b (some c) = c == b

-- `SELECT ... WHERE id = $1`.
unfoldable pub find : Uuid → List Row → Option Row
find k [] = none
find k (r ∷ rows) = if r.id == k then some r else find k rows

-- `UPDATE review SET ... WHERE ...`.
unfoldable pub update_where : (Row → Bool) → (Row → Row) → List Row → List Row
update_where p f [] = []
update_where p f (r ∷ rows) = (if p r then f r else r) ∷ update_where p f rows

-- `INSERT ... ON CONFLICT (id) DO UPDATE SET ... WHERE review.status = 'GATE_REJECTED'`: `merge` makes
-- the row that replaces a rejected one. The second result is the number of rows affected.
unfoldable pub upsert_rejected : Row → (Row → Row) → List Row → List Row × ℕ
upsert_rejected new merge [] = (new ∷ [], 1)
upsert_rejected new merge (r ∷ rows) =
    let (rest, n) = upsert_rejected new merge rows in
    if r.id == new.id
    then (if is_rejected r.status then (merge r ∷ rows, 1) else (r ∷ rows, 0))
    else (r ∷ rest, n)
