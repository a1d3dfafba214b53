-- ===== src/Gate/Retry.antt =====
-- Submitting a reviewId again: after a refusal it may still pass, after an acceptance it changes nothing.
use dost_review_api.Prelude.{String, ◌<◌, ◌≡◌, ◌≢◌, eq_iff, true, false, Option, List, arith, count}
use dost_review_api.Models.{Uuid, DostReview}
use dost_review_api.Review.{ErrorCode, duplicate, Row, find}
use dost_review_api.Gate.Profiles.{passed, refused}
use dost_review_api.Gate.{Settings, Env, is_duplicate, in_window, gate_transaction, gate_and_store}
use dost_review_api.Gate.Outcome.{IsFree, ProfilesAllow, is_duplicate-eq, gate_passes_iff}
use dost_review_api.Gate.Audit.{
  refused-persist, refused-IsFree, refused-count, gate_passes-IsStored,
}

module _ (settings : Settings) (first second : Env) (review : DostReview) (e1 e2 : Option Uuid)
    (rows : List Row) where
  abbrev after_first : List Row
  after_first = (gate_and_store settings first review e1 rows).1

  -- A refused reviewId is not spent, and the refusal uses up no quota. Where no other transaction
  -- commits during the two submissions and the id was free: a review of another profile than the
  -- rater's that was refused passes later if by then Onboard allows both profiles and fewer reviews
  -- than the limit lie in the window, where it is enough to count them as they were before the refused
  -- attempt, and if the INSERT of the second submission does not raise.
  pub gate_retry :
      (code : ErrorCode) (message : String)
      → first.others rows ≡ rows
      → second.others after_first ≡ after_first
      → IsFree (find review.review_id rows)
      → (gate_and_store settings first review e1 rows).0 ≡ refused code message
      → review.rater_profile_id ≢ review.target_profile_id
      → ProfilesAllow second.onboard review.target_profile_id review.rater_profile_id
      → count (in_window review.rater_profile_id review.target_profile_id second.py_now) rows
        < settings.rate_limit_per_rater_per_target
      → second.insert_fails ≡ false
      → (gate_and_store settings second review e2 after_first).0 ≡ passed
  gate_retry code message quiet quiet' free refusal not_self allowed under inserts =
      let stays = refused-persist settings first review e1 rows code message quiet free refusal in
      let free' : IsFree (find review.review_id after_first) =
        rw stays (refused-IsFree settings first review e1 rows code free) in
      (gate_passes_iff settings second review e2 after_first).1 (record {
        not_self = not_self;
        free = free';
        profiles_ok = allowed;
        still_free = rw quiet' free';
        under_limit =
            rw (quiet', stays)
              (omega (
                arith,
                refused-count settings first review e1 rows code review.rater_profile_id
                    review.target_profile_id second.py_now,
              ));
        inserts = inserts;
      })

  stored-duplicate :
      (gate_and_store settings first review e1 rows).0 ≡ passed
      → is_duplicate review.review_id after_first ≡ true
  stored-duplicate h =
      let (r, found, stored) = gate_passes-IsStored settings first review e1 rows h in
      rw is_duplicate-eq (rw (found, stored.status))

-- A review of another profile under a live id is answered DUPLICATE, and the table stays.
gate-duplicate :
    (settings : Settings) (env : Env) (review : DostReview) (e : Option Uuid) (rows : List Row)
    → review.rater_profile_id ≢ review.target_profile_id
    → is_duplicate review.review_id rows ≡ true
    → gate_and_store settings env review e rows
      ≡ (refused duplicate "Review already submitted", rows)
unfolding gate_and_store gate_transaction
gate-duplicate settings env review e rows not_self live =
    ground (arith, not_self, eq_iff review.rater_profile_id review.target_profile_id)

-- Whatever Onboard and the clock say by then, an accepted review that is submitted again is answered
-- DUPLICATE and nothing changes.
pub gate_again :
    (settings : Settings) (first second : Env) (review : DostReview) (e1 e2 : Option Uuid)
    (rows : List Row)
    → (gate_and_store settings first review e1 rows).0 ≡ passed
    → let accepted = (gate_and_store settings first review e1 rows).1 in
      gate_and_store settings second review e2 accepted
      ≡ (refused duplicate "Review already submitted", accepted)
gate_again settings first second review e1 e2 rows h =
    gate-duplicate settings second review e2 (gate_and_store settings first review e1 rows).1
      ((gate_passes_iff settings first review e1 rows).0 h).not_self
      (stored-duplicate settings first second review e1 e2 rows h)
