-- ===== src/Risk/Store.antt =====
-- app/risk/store.py over the tables of migrations/004_risk.sql and 005_review_queue_single_open.sql, and
-- the actions of the service on them: state, exceptions, and transactions that roll back.
use dost_review_api.Prelude.{
  ℕ, Bool, true, false, not, ◌&&◌, ◌==◌, String, Option, none, some, List, [], ◌∷◌, any, ltb,
  if◌then◌else◌,
}
use dost_review_api.Risk.Records.{SignalRecord, member}

pub record SignalEvent : Type 0 where
  pub session_id : String
  pub event_id : String
  pub sender_profile_id : String
  pub receiver_profile_id : Option String
  pub model_version : String
  pub verdict : String
  pub whole : String

-- State blobs are opaque JSON texts. `risk_score` counts tenths (NUMERIC(5,1)).
pub record Conversation : Type 0 where
  pub session_id : String
  pub state : String

pub record Profile : Type 0 where
  pub profile_id : String
  pub account_id : Option String
  pub state : String
  pub risk_score : ℕ
  pub risk_tier : String
  pub repeated_across : List String

pub record OutcomeEvent : Type 0 where
  pub profile_id : String
  pub reporter_id : Option String
  pub session_id : Option String
  pub tag : String
  pub evidence : String

pub data QueueStatus : Type 0 where
  open_review decided expired : QueueStatus

pub record QueueRow : Type 0 where
  pub profile_id : String
  pub session_id : Option String
  pub reason : String
  pub risk_score : ℕ
  pub evidence : String
  pub status : QueueStatus

pub record RiskDb : Type 0 where
  pub signal_events : List SignalEvent
  pub conversations : List Conversation
  pub profiles : List Profile
  pub outcomes : List OutcomeEvent
  pub queue : List QueueRow

-- An exception: the engine's input error with its message, or any other.
pub data Failure : Type 0 where
  engine_rejected : String → Failure
  crashed : Failure

pub data Result (A : Type 0) : Type 0 where
  ok : A → Result A
  err : Failure → Result A

-- An action's writes stay until the transaction around it ends.
abbrev pub Action : Type 0 → Type 0
Action A = RiskDb → Result A × RiskDb

module _ {A : Type 0} where
  abbrev pub pure : A → Action A
  pure a db = (ok a, db)

  abbrev pub raise : Failure → Action A
  raise e db = (err e, db)

  abbrev pub gets : (RiskDb → A) → Action A
  gets f db = (ok (f db), db)

  -- The outer `transaction`: an exception undoes every write. A nested one adds a lock only.
  unfoldable pub settle : RiskDb → Result A × RiskDb → Result A × RiskDb
  settle before (ok a, after) = (ok a, after)
  settle before (err e, after) = (err e, before)

  unfoldable pub transaction : Action A → Action A
  transaction m db = settle db (m db)

infixl 5 ◌>>=◌ ◌>>◌
abbrev pub ◌>>=◌ : {A B : Type 0} → Action A → (A → Action B) → Action B
◌>>=◌ m k db = let (r, after) = m db in elim r [ ok a ↦ k a after | err e ↦ raise e after ]

abbrev pub ◌>>◌ : {A B : Type 0} → Action A → Action B → Action B
m >> k = m >>= λ _. k

unfoldable pub find_conversation : String → List Conversation → Option String
find_conversation k [] = none
find_conversation k (c ∷ rows) =
    if c.session_id == k then some c.state else find_conversation k rows

unfoldable pub put_conversation : String → String → List Conversation → List Conversation
put_conversation k s [] = record { session_id = k; state = s } ∷ []
put_conversation k s (c ∷ rows) =
    if c.session_id == k then record c { state = s } ∷ rows else c ∷ put_conversation k s rows

unfoldable pub find_profile : String → List Profile → Option Profile
find_profile k [] = none
find_profile k (p ∷ rows) = if p.profile_id == k then some p else find_profile k rows

-- `COALESCE(EXCLUDED.account_id, profile_risk.account_id)`.
unfoldable pub coalesce : Option String → Option String → Option String
coalesce none b = b
coalesce (some a) b = some a

unfoldable pub upsert_profile : Profile → List Profile → List Profile
upsert_profile new [] = new ∷ []
upsert_profile new (p ∷ rows) =
    if p.profile_id == new.profile_id
    then record new { account_id = coalesce new.account_id p.account_id } ∷ rows
    else p ∷ upsert_profile new rows

abbrev pub is_open : QueueStatus → Bool
is_open open_review = true
is_open _ = false

unfoldable pub has_open : String → List QueueRow → Bool
has_open k rows = any (λ q. q.profile_id == k && is_open q.status) rows

unfoldable pub has_event : String → String → List SignalEvent → Bool
has_event session event rows = any (λ e. e.session_id == session && e.event_id == event) rows

-- `get_conversation_state`, `put_conversation_state`, `get_profile`.
unfoldable pub get_conversation_state : String → Action (Option String)
get_conversation_state k = gets (λ db. find_conversation k db.conversations)

unfoldable pub put_conversation_state : String → String → Action (Unit {0})
put_conversation_state k s db =
    (ok tt, record db { conversations = put_conversation k s db.conversations })

unfoldable pub get_profile : String → Action (Option Profile)
get_profile k = gets (λ db. find_profile k db.profiles)

abbrev pub tiers : List String
tiers = "none" ∷ "elevated" ∷ "high" ∷ "critical" ∷ []

-- The CHECK on `risk_tier`, and the range of NUMERIC(5,1).
unfoldable pub row_fits : Profile → Bool
row_fits p = member p.risk_tier tiers && ltb p.risk_score 100000

-- `put_profile`: a row that the table cannot hold raises.
unfoldable pub put_profile : Profile → Action (Unit {0})
put_profile new db =
    if row_fits new
    then (ok tt, record db { profiles = upsert_profile new db.profiles })
    else (err crashed, db)

-- `insert_signal_event`: whether a row was inserted. ON CONFLICT (session_id, event_id) DO NOTHING, where
-- the values are read first, those of a row on file too.
unfoldable pub insert_signal_event : SignalRecord → Action Bool
insert_signal_event r db =
    if not r.is_storable
    then (err crashed, db)
    else if has_event r.session_id r.event_id db.signal_events
    then (ok false, db)
    else (
      ok true,
      record db {
        signal_events =
            record {
              session_id = r.session_id;
              event_id = r.event_id;
              sender_profile_id = r.src_profile_id;
              receiver_profile_id = r.dst_profile_id;
              model_version = r.model_version;
              verdict = r.verdict;
              whole = r.whole;
            }
            ∷ db.signal_events;
      },
    )

unfoldable pub insert_outcome : OutcomeEvent → Action (Unit {0})
insert_outcome o db = (ok tt, record db { outcomes = o ∷ db.outcomes })

-- `enqueue_review`: ON CONFLICT DO NOTHING against `uq_review_queue_open`.
unfoldable pub enqueue_review : String → Option String → String → ℕ → String → Action (Unit {0})
enqueue_review profile_id session_id reason risk_score evidence db =
    if has_open profile_id db.queue then (ok tt, db) else (
      ok tt,
      record db {
        queue =
            record {
              profile_id = profile_id;
              session_id = session_id;
              reason = reason;
              risk_score = risk_score;
              evidence = evidence;
              status = open_review;
            }
            ∷ db.queue;
      },
    )

-- `participants_of` returns what it is given.
unfoldable pub participants_of : String → List String → Action (List String)
participants_of session_id fallback = pure fallback
