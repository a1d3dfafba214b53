-- ===== src/Api/Reviews.antt =====
-- app/routes/reviews.py: `POST /api/v1/reviews`. The exception of the gate's INSERT is a 500, what
-- FastAPI answers to an exception that nothing catches; no other query of the gate raises here.
use dost_review_api.Prelude.{
  ℕ, String, Bool, ◌&&◌, Option, none, some, List, is_some, if◌then◌else◌,
}
use dost_review_api.Models.{
  Uuid, Instant, DostReview, FieldError, Validated, valid, invalid, validate,
}
use dost_review_api.Review.{
  ErrorCode, self_review, duplicate, rate_limited, target_not_found, target_inactive,
  rater_not_found, rater_inactive, Row,
}
use dost_review_api.Gate.Profiles.{GateResult, passed, refused, raised}
use dost_review_api.Gate.{Settings, Env, gate_and_store}
use dost_review_api.Api.Json.{
  Json, object, Members, get, Coerced, fields, invalid_fields, raises, Decoders,
}
use dost_review_api.Api.Envelope.{
  EnvelopeError, Parsed, parsed, envelope_error, parse_event_envelope,
}

-- What the body of an answer says. `bad_types` stands for the errors of a coercion, with those of the
-- other fields.
pub data Detail : Type 0 where
  not_json not_object bad_types invalid_payload internal_error : Detail
  bad_envelope : EnvelopeError → Detail
  bad_fields : List FieldError → Detail
  refusal : String → Detail
  accepted : Uuid → Detail

pub record Answer : Type 0 where
  pub status : ℕ
  pub detail : Detail

unfoldable pub bad_request : Detail → Answer
bad_request d = record { status = 400; detail = d }

-- The dictionary of the statuses.
unfoldable pub status_code : ErrorCode → ℕ
status_code self_review = 400
status_code duplicate = 409
status_code rate_limited = 429
status_code target_not_found = 422
status_code target_inactive = 422
status_code rater_not_found = 422
status_code rater_inactive = 422

unfoldable pub gate_answer : DostReview → GateResult → Answer
gate_answer review passed = record { status = 201; detail = accepted review.review_id }
gate_answer review (refused code message) = record {
  status = status_code code;
  detail = refusal message;
}
gate_answer review raised = record { status = 500; detail = internal_error }

-- A body that is read: a review with its event, or the answer to a body that holds none.
pub data Read : Type 0 where
  review_read : DostReview → Option Uuid → Read
  unreadable : Detail → Read

unfoldable pub read_parsed : Parsed → Read
read_parsed (parsed review event_id) = review_read review event_id
read_parsed (envelope_error e) = unreadable (bad_envelope e)

unfoldable pub read_validated : Validated → Read
read_validated (valid review) = review_read review none
read_validated (invalid errors) = unreadable (bad_fields errors)

unfoldable pub read_coerced : Instant → Coerced → Read
read_coerced now (fields p) = read_validated (validate now p)
read_coerced now invalid_fields = unreadable bad_types
read_coerced now raises = unreadable invalid_payload

unfoldable pub is_envelope : Members → Bool
is_envelope body = is_some (get "eventType" body) && is_some (get "encryptedEvent" body)

unfoldable pub read_object : Decoders → Instant → Members → Read
read_object d now body =
    if is_envelope body
    then read_parsed (parse_event_envelope d now body)
    else read_coerced now (d.coerce body)

-- `none` is a body that is not JSON.
unfoldable pub read_body : Decoders → Instant → Option Json → Read
read_body d now none = unreadable not_json
read_body d now (some (object body)) = read_object d now body
read_body d now (some _) = unreadable not_object

unfoldable pub submit_read : Settings → Env → Read → List Row → Answer × List Row
submit_read settings env (unreadable detail) rows = (bad_request detail, rows)
submit_read settings env (review_read review event_id) rows =
    let (result, rows') = gate_and_store settings env review event_id rows in
    (gate_answer review result, rows')

-- `submit_review`; `now` is the time at which the validators run.
unfoldable pub submit_review :
    Decoders → Settings → Env → Instant → Option Json → List Row → Answer × List Row
submit_review d settings env now body rows = submit_read settings env (read_body d now body) rows
