-- ===== src/Gate/Tests.antt =====
-- Submissions of a few concrete reviews.
use dost_review_api.Prelude.{
  ◌<◌, true, false, eq_iff, ◌≡◌, ◌↔◌, ◌⊎◌, refl, none, some, List, [], ◌∷◌, arith, count,
}
use dost_review_api.Models.{Instant, DostReview, days, hours}
use dost_review_api.Review.{Row, find, gated, target_inactive, upsert_rejected}
use dost_review_api.Gate.{
  Settings, Env, rejected_row, persist_rejected, accepted_row, is_duplicate, in_window,
  insert_gated, admit, gate_transaction, gate_and_store,
}
use dost_review_api.Gate.Profiles.{
  Profile, Onboard, answers, passed, refused, select_profiles, status_of, is_active,
  profile_verdict, validate_profiles,
}
use dost_review_api.Gate.Outcome.{IsFree, IsAdmissible, gate_passes_iff}
use dost_review_api.Gate.Audit.{IsStored, IsRecorded, gate_passes-IsStored, gate_refuses-IsRecorded}
use dost_review_api.Gate.Retry.{gate_retry}
use dost_review_api.Gate.RateLimit.{received_in, IsLimited, gate-IsLimited}

abbrev settings : Settings
settings = record { rate_limit_per_rater_per_target = 1 }

-- The seller is deactivated in the first table and active in the second.
abbrev inactive : List Profile
inactive =
    record { id = "seller"; status = some "SUSPENDED" }
    ∷ record { id = "buyer"; status = some "ACTIVE" }
    ∷ []

abbrev both_active : List Profile
both_active =
    record { id = "seller"; status = some "ACTIVE" }
    ∷ record { id = "buyer"; status = some "ACTIVE" }
    ∷ []

abbrev meeting : Onboard → Instant → Env
meeting onboard now = record {
  onboard = onboard;
  py_now = now;
  db_now = now;
  others = λ rows. rows;
  persist_fails = false;
  insert_fails = false;
}

abbrev early : Env
early = meeting (answers inactive) (days 3)

abbrev late : Env
late = meeting (answers both_active) (days 4)

abbrev review : DostReview
review = record {
  review_id = "r1";
  target_profile_id = "seller";
  rater_profile_id = "buyer";
  review_text = 111 ∷ 107 ∷ [];
  multimedia = none;
  created_at = days 2;
}

abbrev stored : Row
stored = record {
  id = "r0";
  target_profile_id = "seller";
  rater_profile_id = "other";
  rater_weight = 100;
  review_text = 111 ∷ [];
  multimedia_json = none;
  status = gated;
  gate_reason = none;
  batch_id = none;
  event_id = none;
  created_at = days 1;
  received_at = days 1;
  processed_at = none;
  retry_count = 0;
}

abbrev table : List Row
table = stored ∷ []

accepts : (gate_and_store settings late review (some "e1") table).0 ≡ passed
unfolding gate_and_store gate_transaction is_duplicate find validate_profiles select_profiles
    status_of profile_verdict is_active admit in_window insert_gated upsert_rejected accepted_row
accepts = refl

refuses :
    (gate_and_store settings early review (some "e1") table).0
    ≡ refused target_inactive "Target profile is not active"
unfolding gate_and_store gate_transaction is_duplicate find validate_profiles select_profiles
    status_of profile_verdict is_active admit persist_rejected upsert_rejected rejected_row
refuses = refl

free : IsFree (find "r1" table)
unfolding find
free = tt

gate_passes_iff_example :
    ((gate_and_store settings late review (some "e1") table).0 ≡ passed)
    ↔ IsAdmissible settings late review table
gate_passes_iff_example = gate_passes_iff settings late review (some "e1") table

gate_passes-IsStored_example :
    (r : Row) × (find "r1" (gate_and_store settings late review (some "e1") table).1 ≡ some r)
    × IsStored review (some "e1") (days 4) r
gate_passes-IsStored_example = gate_passes-IsStored settings late review (some "e1") table accepts

gate_refuses-IsRecorded_example :
    ((false ≡ true) × ((gate_and_store settings early review (some "e1") table).1 ≡ table))
    ⊎ ((r : Row) × (find "r1" (gate_and_store settings early review (some "e1") table).1 ≡ some r)
        × IsRecorded target_inactive (some "e1") (days 3) r)
gate_refuses-IsRecorded_example =
    gate_refuses-IsRecorded settings early review (some "e1") table target_inactive
      "Target profile is not active" refl free refuses

within : count (in_window "buyer" "seller" (days 4)) table < 1
unfolding in_window
within = ground arith

gate_retry_example :
    (gate_and_store settings late review
      (some "e2")
      (gate_and_store settings early review (some "e1") table).1).0
    ≡ passed
unfolding status_of
gate_retry_example =
    gate_retry settings early late review (some "e1") (some "e2") table target_inactive
      "Target profile is not active" refl refl free refuses
      (λ e. ground (arith, e, eq_iff "buyer" "seller")) (refl, refl) within refl

limited : IsLimited 1 (hours 23) table
unfolding received_in
limited rater target start = ground arith

gate-IsLimited_example :
    IsLimited 1 (hours 23) (gate_and_store settings late review (some "e1") table).1
gate-IsLimited_example =
    gate-IsLimited settings late review (some "e1") (hours 1) (hours 23) table (omega arith)
      (omega arith) limited limited
