-- ===== src/Risk/Replies.antt =====
-- What the risk service takes and answers, and what it asks of the engine (app/risk/service.py).
use dost_review_api.Prelude.{ℕ, String, Option, List}
use dost_review_api.Risk.Records.{Event, Derived, Item}

-- What the engine answers to `process_conversation` and to `process_signals`. `raises` is also an answer
-- without one of the keys that the service reads.
pub data ConvReply : Type 0 where
  raises : ConvReply
  error : String → ConvReply
  out : String → List Derived → ConvReply

pub record Folded : Type 0 where
  pub state : String
  pub risk_score : ℕ
  pub risk_tier : String
  pub risk_tags : String
  pub repeated_across : List String

pub data FoldReply : Type 0 where
  raises : FoldReply
  error : String → FoldReply
  out : Folded → FoldReply

-- The payload of a fold. No stored row has a `tenure_days`, so the key is never passed.
pub record FoldInput : Type 0 where
  pub profile_id : String
  pub state : Option String
  pub signals : List Item
  pub outcomes : List Item

-- The engine, and how the evidence of a queue row is written as JSON: both are outside the program.
pub record Engine : Type 0 where
  pub process_conversation : String → Option String → Event → ConvReply
  pub process_signals : FoldInput → FoldReply
  pub evidence_text : Folded → Option String → String

pub data Response : Type 0 where
  duplicate : Response
  unfolded : String → Response
  folded : String → ℕ → List String → Response

-- What the caller of the service gets: such a response, or `{"error": ...}`.
pub data Answered : Type 0 where
  answered : Response → Answered
  engine_error : String → Answered

-- `Outcome` of app/routes/outcomes.py.
pub record OutcomeReport : Type 0 where
  pub profile_id : String
  pub tag : String
  pub reporter_id : Option String
  pub session_id : Option String
  pub evidence : String
