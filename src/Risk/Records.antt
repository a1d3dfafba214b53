-- ===== src/Risk/Records.antt =====
-- The values of the risk service: the gate's record of app/routes/signals.py, the id forms of
-- app/risk/ids.py, and what passes between the service and the engine.
use Prim.Native.Nat.{◌^◌, ◌*◌}
use dost_review_api.Prelude.{ℕ, Bool, true, false, String, ◌==◌, ◌||◌, Option, List, [], ◌∷◌, leb}

-- A Python float. Every finite double is a whole number of units of 2^-1074; of a negative one, only
-- that it is negative is kept.
pub data Float : Type 0 where
  nan negative infinite : Float
  units : ℕ → Float

-- `x >= c` for a constant of so many units: NaN compares false with everything.
unfoldable pub ge_float : Float → ℕ → Bool
ge_float nan c = false
ge_float negative c = false
ge_float infinite c = true
ge_float (units n) c = leb c n

-- 0.5, 1.0, and the double that the literal 0.2 denotes.
pub half_units : ℕ
half_units = 2 ^ 1073

pub one_units : ℕ
one_units = 2 ^ 1074

pub fifth_units : ℕ
fifth_units = 3602879701896397 * 2 ^ 1020

-- `Signal`, of which the service reads two fields.
pub record Signal : Type 0 where
  pub name : String
  pub confidence : Float

-- `context.get("dealStage")`: a string; a list or a dict, which `in` on a set refuses; or any other
-- value, or none.
pub data DealStage : Type 0 where
  stage : String → DealStage
  unhashable : DealStage
  no_stage : DealStage

-- `SignalRecord`. `turn_index` is an integer, by its text; `whole` is the record as it is stored.
-- `is_storable` is whether Postgres takes it: no NUL in a text, and JSON that `::jsonb` reads, with no NaN and
-- no infinite confidence, which Python's `json` both reads and writes.
pub record SignalRecord : Type 0 where
  pub model_version : String
  pub ts : String
  pub event_id : String
  pub session_id : String
  pub src_profile_id : String
  pub dst_profile_id : Option String
  pub verdict : String
  pub category : String
  pub deal_stage : DealStage
  pub turn_index : Option String
  pub text_hash : Option String
  pub signals : List Signal
  pub whole : String
  pub is_storable : Bool

-- The event that the engine's conversation machine is given.
pub record Event : Type 0 where
  pub ts : String
  pub sender_id : String
  pub signals : List Signal
  pub milestones : List String
  pub text_hash : Option String
  pub turn_index : Option String

pub record Derived : Type 0 where
  pub tag : String
  pub profile_id : String
  pub ts : String

-- An item of `signals` or of `outcomes` for the fold. An outcome has no `createdAt`.
pub record Item : Type 0 where
  pub tag : String
  pub conversation_id : String
  pub counterparty_id : Option String
  pub created_at : Option String

unfoldable pub member : String → List String → Bool
member k [] = false
member k (j ∷ names) = j == k || member k names
