-- ===== src/Risk/Service.antt =====
-- app/risk/service.py, and the routes on it.
use Prim.Native.String.{◌++◌ as append_text}
use dost_review_api.Prelude.{
  ℕ, Bool, true, false, ◌||◌, ◌==◌, String, Option, none, some, List, [], ◌∷◌, leb, if◌then◌else◌,
}
use dost_review_api.Risk.Records.{SignalRecord, Event, Derived, Item}
use dost_review_api.Risk.Mapping.{to_conversation_event, derived_to_signals}
use dost_review_api.Risk.Store.{
  Profile, RiskDb, engine_rejected, crashed, Result, ok, err, Action, pure, raise, transaction,
  ◌>>=◌, ◌>>◌, find_profile, get_conversation_state, put_conversation_state, get_profile,
  put_profile, insert_signal_event, insert_outcome, enqueue_review, participants_of,
}
use dost_review_api.Risk.Replies.{
  ConvReply, raises, error, out, Folded, FoldReply, Engine, Response, duplicate, unfolded, folded,
  Answered, answered, engine_error, OutcomeReport,
}

-- `QUEUE_AT`, 60.0 in tenths.
abbrev pub queue_at : ℕ
queue_at = 600

-- `_tier_of`, on the row of the profile.
unfoldable pub tier_of : Option Profile → String
tier_of none = "none"
tier_of (some p) = p.risk_tier

unfoldable pub account_of : Option Profile → Option String
account_of none = none
account_of (some p) = p.account_id

unfoldable pub state_of : Option Profile → Option String
state_of none = none
state_of (some p) = some p.state

-- The queue gets a row from the score `QUEUE_AT` on.
unfoldable pub enqueue_high : String → Option String → String → ℕ → String → Action (Unit {0})
enqueue_high profile_id session_id reason risk_score evidence db =
    if leb queue_at risk_score
    then enqueue_review profile_id session_id reason risk_score evidence db
    else (ok tt, db)

-- The row of an output.
abbrev pub profile_row : String → Option String → Folded → Profile
profile_row profile_id account f = record {
  profile_id = profile_id;
  account_id = account;
  state = f.state;
  risk_score = f.risk_score;
  risk_tier = f.risk_tier;
  repeated_across = f.repeated_across;
}

-- What `_fold` writes for an output of the engine.
unfoldable pub store_fold :
    Engine
    → String
    → Option String
    → String
    → Option String
    → Option Profile
    → Folded
    → Action Response
store_fold engine profile_id session_id reason evidence prev f = do
  put_profile (profile_row profile_id (account_of prev) f)
  enqueue_high profile_id session_id reason f.risk_score (engine.evidence_text f evidence)
  pure (folded f.risk_tier f.risk_score f.repeated_across)

unfoldable pub after_fold :
    Engine
    → String
    → Option String
    → String
    → Option String
    → Option Profile
    → FoldReply
    → Action Response
after_fold engine profile_id session_id reason evidence prev raises = raise crashed
after_fold engine profile_id session_id reason evidence prev (error message) =
    raise (engine_rejected message)
after_fold engine profile_id session_id reason evidence prev (out f) =
    store_fold engine profile_id session_id reason evidence prev f

-- `_fold`, which stands inside a transaction of its callers.
unfoldable pub fold :
    Engine
    → String
    → List Item
    → List Item
    → Option String
    → String
    → Option String
    → Action Response
fold engine profile_id signals outcomes session_id reason evidence = do
  prev ← get_profile profile_id
  after_fold engine profile_id session_id reason evidence prev (
      engine.process_signals (record {
        profile_id = profile_id;
        state = state_of prev;
        signals = signals;
        outcomes = outcomes;
      }))

-- `{p for p in (sender, receiver) if p}`.
unfoldable pub pair_of : String → Option String → List String
pair_of sender receiver =
    let others : List String = elim receiver [
      | none ↦ []
      | some r ↦ if r == "" || r == sender then [] else r ∷ []
    ] in
    if sender == "" then others else sender ∷ others

unfoldable pub answer_tier : String → Action Response
answer_tier sender = do row ← get_profile sender; pure (unfolded (tier_of row))

-- From the derived tags on.
unfoldable pub fold_signals : Engine → SignalRecord → List Item → Action Response
fold_signals engine r [] = answer_tier r.src_profile_id
fold_signals engine r (s ∷ signals) =
    fold engine r.src_profile_id (s ∷ signals) [] (some r.session_id) "score" none

unfoldable pub fold_derived : Engine → SignalRecord → List Derived → Action Response
fold_derived engine r [] = answer_tier r.src_profile_id
fold_derived engine r (d ∷ derived) = do
  participants ← participants_of r.session_id (pair_of r.src_profile_id r.dst_profile_id)
  fold_signals engine r
      (derived_to_signals (d ∷ derived) r.session_id participants (some r.src_profile_id))

unfoldable pub after_conversation : Engine → SignalRecord → ConvReply → Action Response
after_conversation engine r raises = raise crashed
after_conversation engine r (error message) = raise (engine_rejected message)
after_conversation engine r (out state derived) = do
  put_conversation_state r.session_id state
  fold_derived engine r derived

unfoldable pub after_insert : Engine → SignalRecord → Event → Bool → Action Response
after_insert engine r event false = pure duplicate
after_insert engine r event true = do
  state ← get_conversation_state r.session_id
  after_conversation engine r (engine.process_conversation r.session_id state event)

unfoldable pub ingest_event : Engine → SignalRecord → Event → Action Response
ingest_event engine r event = do
  inserted ← insert_signal_event r
  after_insert engine r event inserted

-- `except _EngineRejected`.
unfoldable pub catch_rejected : Result Response × RiskDb → Result Answered × RiskDb
catch_rejected (ok r, db) = (ok (answered r), db)
catch_rejected (err (engine_rejected message), db) = (ok (engine_error message), db)
catch_rejected (err crashed, db) = (err crashed, db)

unfoldable pub ingest_mapped :
    Engine → SignalRecord → Option Event → RiskDb → Result Answered × RiskDb
ingest_mapped engine r none db = (err crashed, db)
ingest_mapped engine r (some event) db =
    catch_rejected (transaction (ingest_event engine r event) db)

-- `ingest_record`.
unfoldable pub ingest_record : Engine → SignalRecord → RiskDb → Result Answered × RiskDb
ingest_record engine r = ingest_mapped engine r (to_conversation_event r)

-- `session_id or f"outcome:{tag}"`.
unfoldable pub outcome_conversation : Option String → String → String
outcome_conversation none tag = append_text "outcome:" tag
outcome_conversation (some s) tag = if s == "" then append_text "outcome:" tag else s

-- `ingest_outcome`.
unfoldable pub record_outcome : Engine → OutcomeReport → Action Response
record_outcome engine o = do
  insert_outcome (record {
    profile_id = o.profile_id;
    reporter_id = o.reporter_id;
    session_id = o.session_id;
    tag = o.tag;
    evidence = o.evidence;
  })
  fold engine o.profile_id []
      (record {
        tag = o.tag;
        conversation_id = outcome_conversation o.session_id o.tag;
        counterparty_id = o.reporter_id;
        created_at = none;
      }
        ∷ [])
      o.session_id (append_text "outcome:" o.tag) (some o.evidence)

unfoldable pub ingest_outcome : Engine → OutcomeReport → RiskDb → Result Answered × RiskDb
ingest_outcome engine o db = catch_rejected (transaction (record_outcome engine o) db)

-- `read_tier`.
pub record TierAnswer : Type 0 where
  pub profile_id : String
  pub risk_tier : String
  pub risk_score : ℕ
  pub repeated_across : List String

unfoldable pub tier_answer : String → Option Profile → TierAnswer
tier_answer k none = record {
  profile_id = k;
  risk_tier = "none";
  risk_score = 0;
  repeated_across = [];
}
tier_answer k (some p) = record {
  profile_id = k;
  risk_tier = p.risk_tier;
  risk_score = p.risk_score;
  repeated_across = p.repeated_across;
}

unfoldable pub read_tier : String → RiskDb → TierAnswer
read_tier k db = tier_answer k (find_profile k db.profiles)
