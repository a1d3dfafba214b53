-- ===== src/Api/Tests.antt =====
-- A body that holds a review, and a commit that is shown.
use dost_review_api.Prelude.{true, false, ◌≡◌, ◌↔◌, refl, none, some, [], ◌∷◌}
use dost_review_api.Models.{
  naive, days, Payload, is_space, is_blank, text_error, multimedia_error, to_utc, date_error, valid,
  collect, field_errors, accept_fields, validated, validate,
}
use dost_review_api.Models.Laws.{IsWellFormed, validate_iff}
use dost_review_api.Review.{find, upsert_rejected}
use dost_review_api.Gate.Profiles.{not_configured, validate_profiles}
use dost_review_api.Gate.{
  Settings, Env, accepted_row, is_duplicate, in_window, insert_gated, admit, gate_transaction,
  gate_and_store,
}
use dost_review_api.Batch.Database.{no_stats, Output, Reply}
use dost_review_api.Batch.Engine.{
  merge_tags, Attempt, Work, finished, reputation_row, commit_profile,
}
use dost_review_api.Batch.Engine as Engine
use dost_review_api.Api.Json.{Json, text, object, no_members, member, get, fields, Decoders}
use dost_review_api.Api.Reviews.{
  gate_answer, read_validated, read_coerced, is_envelope, read_object, read_body, submit_read,
  submit_review,
}
use dost_review_api.Api.Created.{Created, submit_review-Created}
use dost_review_api.Api.WellFormed.{YieldsWellFormed, read_body-YieldsWellFormed}
use dost_review_api.Api.Reputation.{get_reputation, get_reputation-commit_profile}

abbrev payload : Payload
payload = record {
  review_id = "r1";
  target_profile_id = "seller";
  rater_profile_id = "buyer";
  review_text = 111 ∷ 107 ∷ [];
  multimedia = none;
  created_at = naive (days 2);
}

-- Decoders for which every object is this payload.
abbrev decoders : Decoders
decoders = record {
  decoded = λ v. none;
  loads = λ v. none;
  uuid = λ v. none;
  coerce = λ members. fields payload;
}

abbrev settings : Settings
settings = record { rate_limit_per_rater_per_target = 5 }

abbrev env : Env
env = record {
  onboard = not_configured;
  py_now = days 3;
  db_now = days 3;
  others = λ rows. rows;
  persist_fails = false;
  insert_fails = false;
}

abbrev body : Json
body = object (member "reviewId" (text "r1") no_members)

created : (submit_review decoders settings env (days 3) (some body) []).0.status ≡ 201
unfolding submit_review read_body read_object is_envelope get read_coerced read_validated validate
    validated field_errors collect text_error is_blank is_space multimedia_error date_error to_utc
    accept_fields submit_read gate_and_store gate_transaction is_duplicate find validate_profiles
    admit in_window insert_gated upsert_rejected accepted_row gate_answer
created = refl

submit_review-Created_example :
    Created
      (days 3)
      (read_body decoders (days 3) (some body))
      (submit_review decoders settings env (days 3) (some body) []).1
submit_review-Created_example =
    submit_review-Created decoders settings env (days 3) (some body) [] created

read_body-YieldsWellFormed_example :
    YieldsWellFormed (days 3) (read_body decoders (days 3) (some body))
read_body-YieldsWellFormed_example = read_body-YieldsWellFormed decoders (days 3) (some body)

validate_iff_example : (validate (days 3) payload ≡ valid (accept_fields payload)) ↔ (
    IsWellFormed (days 3) (accept_fields payload) × (accept_fields payload ≡ accept_fields payload))
validate_iff_example = validate_iff (days 3) payload (accept_fields payload)

abbrev batch_env : Engine.Env
batch_env = record {
  process_reputation = λ input. Reply.raises;
  engine_loads = true;
  locked = λ k. false;
  now = 10;
  claim_fails = false;
  load_fails = λ k. false;
  commit_fails = λ k. false;
  update_fails = λ attempt k. false;
}

abbrev output : Output
output = record {
  reputation = "good";
  reputation_score = 41;
  total_reviews = 2;
  top_tags = [];
  all_tags = ("late", 1) ∷ [];
  summary = none;
  state = [];
}

abbrev work : Work
work = record { db = record { reviews = []; reputations = []; runs = [] }; stats = no_stats }

get_reputation-commit_profile_example :
    get_reputation "p1" (commit_profile batch_env ("p1", []) output work).1.db
    ≡ some (record {
      profile_id = "p1";
      reputation = "good";
      reputation_score = 41;
      total_reviews = 2;
      all_tags = merge_tags output;
      summary = "";
      updated_at = 10;
    })
unfolding commit_profile
get_reputation-commit_profile_example =
    get_reputation-commit_profile batch_env ("p1", []) output work refl
