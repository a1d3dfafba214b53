-- ===== src/Api/Created.antt =====
-- What a 201 promises.
use dost_review_api.Prelude.{◌≡◌, refl, ◌≤◌, Option, some, List, arith}
use dost_review_api.Models.{Uuid, Instant, DostReview}
use dost_review_api.Review.{
  ErrorCode, self_review, duplicate, rate_limited, target_not_found, target_inactive,
  rater_not_found, rater_inactive, Row, find,
}
use dost_review_api.Gate.Profiles.{GateResult, passed, refused, raised}
use dost_review_api.Gate.{Settings, Env, gate_and_store}
use dost_review_api.Gate.Audit.{IsStored, gate_passes-IsStored}
use dost_review_api.Api.Json.{Json, Decoders}
use dost_review_api.Api.Reviews.{
  Read, review_read, unreadable, gate_answer, status_code, bad_request, read_body, submit_read,
  submit_review,
}

-- A review was read from the body, and its row is in the table.
abbrev pub Created : Instant → Read → List Row → Type 0
Created now read rows =
    (review : DostReview) × (event_id : Option Uuid) × (r : Row) × (read
      ≡ review_read review event_id)
    × (find review.review_id rows ≡ some r)
    × IsStored review event_id now r

not_created : (code : ErrorCode) → 400 ≤ status_code code
unfolding status_code
not_created self_review = omega arith
not_created duplicate = omega arith
not_created rate_limited = omega arith
not_created target_not_found = omega arith
not_created target_inactive = omega arith
not_created rater_not_found = omega arith
not_created rater_inactive = omega arith

created-passed :
    (review : DostReview) (g : GateResult) → (gate_answer review g).status ≡ 201 → g ≡ passed
unfolding gate_answer status_code
created-passed review passed h = refl
created-passed review (refused code message) h = ground (arith, not_created code)
created-passed review raised h = absurd (omega (arith, h))

submit_read-Created :
    (settings : Settings) (env : Env) (read : Read) (rows : List Row)
    → (submit_read settings env read rows).0.status ≡ 201
    → Created env.db_now read (submit_read settings env read rows).1
unfolding submit_read bad_request
submit_read-Created settings env (unreadable d) rows h = ground arith
submit_read-Created settings env (review_read review event_id) rows h =
    let (r, at, stored) =
      gate_passes-IsStored settings env review event_id rows
        (created-passed review (gate_and_store settings env review event_id rows).0 h) in
    (review, event_id, r, refl, at, stored)

-- An answer 201 means that a review was read from the body, raw or in an envelope, and that it is in
-- the table as GATED with its fields and the event of the envelope.
pub submit_review-Created :
    (d : Decoders) (settings : Settings) (env : Env) (now : Instant) (body : Option Json)
    (rows : List Row)
    → (submit_review d settings env now body rows).0.status ≡ 201
    → Created env.db_now (read_body d now body) (submit_review d settings env now body rows).1
unfolding submit_review
submit_review-Created d settings env now body rows =
    submit_read-Created settings env (read_body d now body) rows
