-- ===== src/Gate/Outcome.antt =====
-- The outcome of the gate, and what it leaves in the table.
use dost_review_api.Prelude.{
  String, ◌||◌, ◌<◌, ◌==◌, eq_iff, ◌≡◌, refl, ◌≢◌, ◌↔◌, true, false, Option, none, some, List, [],
  ◌∷◌, arith, count, leb, if◌then◌else◌,
}
use dost_review_api.Models.{Uuid, str, DostReview}
use dost_review_api.Review.{ErrorCode, duplicate, Row, gate_rejected, find}
use dost_review_api.Review.Laws.{find-upsert, rows_affected, is_live, upserted}
use dost_review_api.Gate.Profiles.{
  passed, refused, raised, is_active, Profile, Onboard, not_configured, unreachable, answers,
  select_profiles, status_of, profile_verdict, validate_profiles,
}
use dost_review_api.Gate.{
  Settings, Env, merge_rejected, merge_accepted, rejected_row, accepted_row, persist_rejected,
  insert_gated, is_duplicate, in_window, admit, gate_transaction, gate_and_store,
}

pub is_duplicate-eq : (k : Uuid) (rows : List Row) → is_duplicate k rows ≡ is_live (find k rows)
unfolding is_duplicate
is_duplicate-eq k rows = ground arith

-- What each statement of the gate leaves under a key.
module _ (env : Env) (review : DostReview) (event_id : Option Uuid) where
  pub find-persist :
      (code : ErrorCode) (k : Uuid) (rows : List Row)
      → find k (persist_rejected env review event_id code rows) ≡ (
          if env.persist_fails
          then find k rows
          else if review.review_id == k
          then some (
              upserted
                (rejected_row review event_id code env.db_now)
                (merge_rejected event_id code env.db_now)
                (find review.review_id rows))
          else find k rows)
  unfolding persist_rejected rejected_row merge_rejected
  find-persist code k rows = ground (
    arith,
    find-upsert (rejected_row review event_id code env.db_now)
        (merge_rejected event_id code env.db_now) (λ r. refl) k rows,
  )

  pub find-insert :
      (k : Uuid) (rows : List Row)
      → find k (insert_gated env review event_id rows).1 ≡ (
          if env.insert_fails
          then find k rows
          else if review.review_id == k
          then some (
              upserted
                (accepted_row review event_id env.db_now)
                (merge_accepted review event_id env.db_now)
                (find review.review_id rows))
          else find k rows)
  unfolding insert_gated accepted_row merge_accepted
  find-insert k rows = ground (
    arith,
    find-upsert (accepted_row review event_id env.db_now)
        (merge_accepted review event_id env.db_now) (λ r. refl) k rows,
  )

  pub insert_gated-result :
      (rows : List Row)
      → (insert_gated env review event_id rows).0 ≡ (
          if env.insert_fails
          then raised
          else if is_duplicate review.review_id rows
          then refused duplicate "Review already submitted"
          else passed)
  unfolding insert_gated accepted_row is_duplicate
  insert_gated-result rows = ground (
    arith,
    rows_affected (accepted_row review event_id env.db_now)
        (merge_accepted review event_id env.db_now) rows,
  )

-- A profile is active in Onboard's table.
abbrev pub IsActive : List Profile → Uuid → Type 0
IsActive table k = status_of (str k) table ≡ some (some "ACTIVE")

-- What Onboard must say of the two profiles; with no answer from it, nothing.
abbrev pub ProfilesAllow : Onboard → Uuid → Uuid → Type 0
ProfilesAllow (answers table) target rater = IsActive table target × IsActive table rater
ProfilesAllow _ target rater = Unit

-- The query selects both profiles, so it loses no status that the verdict asks for.
status_of-select :
    (k a b : String) (table : List Profile)
    → ((k == a) || (k == b)) ≡ true
    → status_of k (select_profiles a b table) ≡ status_of k table
unfolding status_of select_profiles
status_of-select k a b [] h = refl
status_of-select k a b (p ∷ table) h = ground (
  arith,
  status_of-select k a b table h,
  eq_iff p.id k,
  eq_iff p.id a,
  eq_iff p.id b,
  eq_iff k a,
  eq_iff k b,
)

profile_verdict-none :
    (t r : Option (Option String))
    → (profile_verdict t r ≡ none) ↔ ((t ≡ some (some "ACTIVE")) × (r ≡ some (some "ACTIVE")))
unfolding profile_verdict is_active
profile_verdict-none none r = ground arith
profile_verdict-none (some none) r = ground arith
profile_verdict-none (some (some t)) none = ground (arith, eq_iff t "ACTIVE")
profile_verdict-none (some (some t)) (some none) = ground (arith, eq_iff t "ACTIVE")
profile_verdict-none (some (some t)) (some (some r)) =
    ground (arith, eq_iff t "ACTIVE", eq_iff r "ACTIVE")

-- `_validate_profiles` returns None exactly when Onboard gives no answer or has both profiles ACTIVE.
pub validate_profiles-none :
    (onboard : Onboard) (target rater : Uuid)
    → (validate_profiles onboard target rater ≡ none) ↔ ProfilesAllow onboard target rater
unfolding validate_profiles
validate_profiles-none not_configured target rater = ground arith
validate_profiles-none unreachable target rater = ground arith
validate_profiles-none (answers table) target rater =
    rw (status_of-select target target rater table (ground (arith, eq_iff target target))) (
      rw (status_of-select rater target rater table (ground (arith, eq_iff rater rater)))
        (profile_verdict-none (status_of target table) (status_of rater table)))

-- An id is free when no row has it, or a row that was only kept for the audit.
abbrev pub IsFree : Option Row → Type 0
IsFree none = Unit
IsFree (some r) = r.status ≡ gate_rejected

live_iff-IsFree : (o : Option Row) → (is_live o ≡ false) ↔ IsFree o
live_iff-IsFree none = ground arith
live_iff-IsFree (some r) = ground arith

pub IsFree-iff : (k : Uuid) (rows : List Row) → (is_duplicate k rows ≡ false) ↔ IsFree (find k rows)
IsFree-iff k rows = rw is_duplicate-eq (live_iff-IsFree (find k rows))

-- The conditions of an acceptance, in terms of the table and of Onboard. `env.others rows` is the table
-- after the duplicate check, with what other transactions have committed by then.
pub record IsAdmissible (settings : Settings) (env : Env) (review : DostReview) (rows : List Row)
    : Type 0 where
  pub not_self : review.rater_profile_id ≢ review.target_profile_id
  pub free : IsFree (find review.review_id rows)
  pub profiles_ok : ProfilesAllow env.onboard review.target_profile_id review.rater_profile_id
  pub still_free : IsFree (find review.review_id (env.others rows))
  pub under_limit :
      count
        (in_window review.rater_profile_id review.target_profile_id env.py_now)
        (env.others rows)
      < settings.rate_limit_per_rater_per_target
  pub inserts : env.insert_fails ≡ false

module _ (settings : Settings) (env : Env) (review : DostReview) (event_id : Option Uuid)
    (rows : List Row) where
  -- The same conditions as the tests that the code makes.
  passes-tests : ((gate_and_store settings env review event_id rows).0 ≡ passed) ↔ (
      ((review.rater_profile_id == review.target_profile_id) ≡ false)
      × (is_duplicate review.review_id rows ≡ false)
      × (validate_profiles env.onboard review.target_profile_id review.rater_profile_id ≡ none)
      × (is_duplicate review.review_id (env.others rows) ≡ false)
      × (leb settings.rate_limit_per_rater_per_target (
            count
              (in_window review.rater_profile_id review.target_profile_id env.py_now)
              (env.others rows))
          ≡ false)
      × (env.insert_fails ≡ false))
  unfolding gate_and_store gate_transaction admit
  passes-tests = ground (arith, insert_gated-result env review event_id (env.others rows))

  -- The gate accepts a review exactly when it is admissible: the rater is not the target; the id is on
  -- no row, or on a rejected one, at the duplicate check and after what other transactions commit
  -- behind it; Onboard is not there or has both profiles ACTIVE; fewer accepted reviews of the pair
  -- than the limit lie in the window; and the INSERT does not raise.
  pub gate_passes_iff :
      ((gate_and_store settings env review event_id rows).0 ≡ passed)
      ↔ IsAdmissible settings env review rows
  gate_passes_iff = (
    (λ h.
        let t = passes-tests.0 h in
        record {
          not_self = λ e. ground (arith, eq_iff review.rater_profile_id review.target_profile_id);
          free = (IsFree-iff review.review_id rows).0 t.1;
          profiles_ok =
              (validate_profiles-none env.onboard review.target_profile_id
                  review.rater_profile_id).0
                t.2;
          still_free = (IsFree-iff review.review_id (env.others rows)).0 t.3;
          under_limit = ground arith;
          inserts = t.5;
        }),
    (λ a. passes-tests.1 (
      ground (arith, eq_iff review.rater_profile_id review.target_profile_id, a.not_self),
      (IsFree-iff review.review_id rows).1 a.free,
      (validate_profiles-none env.onboard review.target_profile_id review.rater_profile_id).1
          a.profiles_ok,
      (IsFree-iff review.review_id (env.others rows)).1 a.still_free,
      ground (arith, a.under_limit),
      a.inserts,
    )),
  )
