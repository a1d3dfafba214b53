-- ===== src/Gate/Profiles.antt =====
-- app/gate.py, `GateResult` and `_validate_profiles`: the lookup in the database of Onboard, which is
-- a service outside the program. What the program sees of it is its table `profile`, or a failure.
use dost_review_api.Prelude.{
  String, Bool, false, not, ◌||◌, ◌==◌, Option, none, some, List, [], ◌∷◌, keep, if◌then◌else◌,
}
use dost_review_api.Models.{Uuid, str}
use dost_review_api.Review.{
  ErrorCode, target_not_found, target_inactive, rater_not_found, rater_inactive,
}

-- `GateResult(True)` has no code; `refused` carries `error_code` and `message`. With `raised` there is no
-- GateResult: an exception leaves `gate_and_store`.
pub data GateResult : Type 0 where
  passed : GateResult
  refused : ErrorCode → String → GateResult
  raised : GateResult

-- The fields of a `GateResult` that refuses.
abbrev pub Refusal : Type 0
Refusal = ErrorCode × String

-- A row of Onboard's `profile`, whose id is TEXT, and whose status may be NULL.
pub record Profile : Type 0 where
  pub id : String
  pub status : Option String

-- No pool; a pool whose query raises or runs over `onboard_query_timeout`; or the table.
pub data Onboard : Type 0 where
  not_configured : Onboard
  unreachable : Onboard
  answers : List Profile → Onboard

-- `SELECT id, status FROM profile WHERE id = ANY($1::text[])`.
unfoldable pub select_profiles : String → String → List Profile → List Profile
select_profiles a b rows = keep (λ p. p.id == a || p.id == b) rows

-- `{row["id"]: row["status"] for row in rows}` read at a key: the last row wins.
unfoldable pub status_of : String → List Profile → Option (Option String)
status_of k [] = none
status_of k (p ∷ rows) = elim (status_of k rows) [
  | some s ↦ some s
  | none ↦ if p.id == k then some p.status else none
]

unfoldable pub is_active : Option String → Bool
is_active none = false
is_active (some s) = s == "ACTIVE"

-- The four tests on the two lookups, in the order of the source.
unfoldable pub profile_verdict : Option (Option String) → Option (Option String) → Option Refusal
unfolding is_active
profile_verdict none _ = some (target_not_found, "Target profile does not exist")
profile_verdict (some t) rater =
    if not (is_active t)
    then some (target_inactive, "Target profile is not active")
    else elim rater [
      | none ↦ some (rater_not_found, "Rater profile does not exist")
      | some r ↦
          if not (is_active r) then some (rater_inactive, "Rater profile is not active") else none
    ]

-- `_validate_profiles`: `none` when both are active, and when nothing can be asked.
unfoldable pub validate_profiles : Onboard → Uuid → Uuid → Option Refusal
unfolding select_profiles status_of profile_verdict
validate_profiles not_configured target_id rater_id = none
validate_profiles unreachable target_id rater_id = none
validate_profiles (answers table) target_id rater_id =
    let rows = select_profiles (str target_id) (str rater_id) table in
    profile_verdict (status_of (str target_id) rows) (status_of (str rater_id) rows)
