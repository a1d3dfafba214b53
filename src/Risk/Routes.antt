-- ===== src/Risk/Routes.antt =====
-- app/routes/signals.py, app/routes/outcomes.py and app/routes/risk.py: the answers of the service.
use dost_review_api.Prelude.{ℕ, not, String, Option, none, some, List, [], ◌∷◌, if◌then◌else◌}
use dost_review_api.Risk.Records.{SignalRecord, member}
use dost_review_api.Risk.Store.{RiskDb, Result, ok, err}
use dost_review_api.Risk.Replies.{
  Engine, duplicate, Answered, answered, engine_error, OutcomeReport,
}
use dost_review_api.Risk.Service.{ingest_record, ingest_outcome, TierAnswer, read_tier}

-- An HTTP status with the body; an exception is a 500 with none.
pub record Answer : Type 0 where
  pub status : ℕ
  pub body : Option Answered

unfoldable pub signal_answer : Result Answered → Answer
signal_answer (err e) = record { status = 500; body = none }
signal_answer (ok (engine_error message)) = record {
  status = 422;
  body = some (engine_error message);
}
signal_answer (ok (answered duplicate)) = record { status = 200; body = some (answered duplicate) }
signal_answer (ok (answered r)) = record { status = 202; body = some (answered r) }

-- `post_signal`, on a record that pydantic has accepted.
unfoldable pub post_signal : Engine → SignalRecord → RiskDb → Answer × RiskDb
post_signal engine r db = let (res, after) = ingest_record engine r db in (signal_answer res, after)

abbrev pub outcome_tags : List String
outcome_tags =
    "counterparty_reported" ∷ "paid_not_delivered" ∷ "not_received" ∷ "dispute_lost"
    ∷ "counterparty_silent_after_money_ask" ∷ "confirmed_fraud" ∷ "shared_instrument_with_confirmed"
    ∷ []

-- The route returns whatever the service does, with its status 202.
unfoldable pub outcome_answer : Result Answered → Answer
outcome_answer (err e) = record { status = 500; body = none }
outcome_answer (ok r) = record { status = 202; body = some r }

-- `post_outcome`.
unfoldable pub post_outcome : Engine → OutcomeReport → RiskDb → Answer × RiskDb
post_outcome engine o db =
    if not (member o.tag outcome_tags)
    then (record { status = 422; body = none }, db)
    else let (res, after) = ingest_outcome engine o db in (outcome_answer res, after)

-- `get_profile_risk`.
unfoldable pub get_profile_risk : String → RiskDb → TierAnswer
get_profile_risk k db = read_tier k db
