-- ===== src/Risk/Keeps.antt =====
-- Induction over an ingest: what each write of the service keeps, the whole ingest keeps.
use Prim.Native.String.{◌++◌ as append_text}
use dost_review_api.Prelude.{
  ℕ, Bool, true, false, ◌≡◌, refl, String, Option, none, some, List, [], ◌∷◌, Bool-cases, inl, inr,
  leb,
}
use dost_review_api.Risk.Records.{SignalRecord, Event, Derived, Item}
use dost_review_api.Risk.Mapping.{to_conversation_event, derived_to_signals}
use dost_review_api.Risk.Store.{
  Profile, OutcomeEvent, RiskDb, engine_rejected, crashed, Result, ok, err, Action, transaction,
  settle, ◌>>=◌, ◌>>◌, put_profile, insert_signal_event, enqueue_review, get_profile,
  get_conversation_state, put_conversation_state, participants_of, insert_outcome,
  find_conversation,
}
use dost_review_api.Risk.Replies.{Engine, ConvReply, FoldReply, Response, OutcomeReport}
use dost_review_api.Risk.Service.{
  account_of, state_of, pair_of, queue_at, enqueue_high, store_fold, after_fold, fold, answer_tier,
  fold_signals, fold_derived, after_conversation, after_insert, ingest_event, catch_rejected,
  ingest_mapped, ingest_record, record_outcome, outcome_conversation, ingest_outcome,
}

-- The action keeps `P`, whether it returns or raises.
abbrev pub Keeps : {A : Type 0} → (RiskDb → Type 0) → Action A → Type 0
Keeps P m = (db : RiskDb) → P db → P (m db).1

-- What the first action has established, the rest keeps.
pub bind-keeps :
    {A B : Type 0} (P : RiskDb → Type 0) (m : Action A) (k : A → Action B) (db : RiskDb)
    → P (m db).1
    → ((a : A) → Keeps P (k a))
    → P ((m >>= k) db).1
bind-keeps {A} {B} P m k db p hk = go (m db) p
  where
    go :
        (r : Result A × RiskDb)
        → P r.1
        → P (elim r.0 as (λ _. Result B × RiskDb) [ ok a ↦ k a r.1 | err e ↦ (err e, r.1) ]).1
    go (ok a, after) q = hk a after q
    go (err e, after) q = q

pub Keeps-bind :
    {A B : Type 0} (P : RiskDb → Type 0) (m : Action A) (k : A → Action B)
    → Keeps P m
    → ((a : A) → Keeps P (k a))
    → Keeps P (m >>= k)
Keeps-bind P m k h hk db p = bind-keeps P m k db (h db p) hk

module _ (P : RiskDb → Type 0) (engine : Engine) (key : String)
    (puts : (new : Profile) → new.profile_id ≡ key → Keeps P (put_profile new))
    (enqueues : (session : Option String) (reason : String) (score : ℕ) (evidence : String)
      → Keeps P (enqueue_review key session reason score evidence)) where
  enqueue_high-Keeps :
      (session : Option String) (reason : String) (score : ℕ) (evidence : String)
      → Keeps P (enqueue_high key session reason score evidence)
  unfolding enqueue_high
  enqueue_high-Keeps session reason score evidence db p = elim (Bool-cases (leb queue_at score)) [
    | inl high ↦ rw high (enqueues session reason score evidence db p)
    | inr low ↦ rw low p
  ]

  after_fold-Keeps :
      (session : Option String) (reason : String) (evidence : Option String) (prev : Option Profile)
      (reply : FoldReply)
      → Keeps P (after_fold engine key session reason evidence prev reply)
  unfolding after_fold store_fold
  after_fold-Keeps session reason evidence prev FoldReply.raises = λ db p. p
  after_fold-Keeps session reason evidence prev (FoldReply.error m) = λ db p. p
  after_fold-Keeps session reason evidence prev (FoldReply.out f) =
      let new : Profile = record {
        profile_id = key;
        account_id = account_of prev;
        state = f.state;
        risk_score = f.risk_score;
        risk_tier = f.risk_tier;
        repeated_across = f.repeated_across;
      } in
      Keeps-bind P (put_profile new)
        (λ _.
          enqueue_high key session reason f.risk_score (engine.evidence_text f evidence)
          >> (λ db. (ok (Response.folded f.risk_tier f.risk_score f.repeated_across), db)))
        (puts new refl)
        (λ u.
          Keeps-bind P
            (enqueue_high key session reason f.risk_score (engine.evidence_text f evidence))
            (λ _ db. (ok (Response.folded f.risk_tier f.risk_score f.repeated_across), db))
            (enqueue_high-Keeps session reason f.risk_score (engine.evidence_text f evidence))
            (λ v db p. p))

  pub fold-Keeps :
      (signals outcomes : List Item) (session : Option String) (reason : String)
      (evidence : Option String)
      → Keeps P (fold engine key signals outcomes session reason evidence)
  unfolding fold get_profile
  fold-Keeps signals outcomes session reason evidence =
      Keeps-bind P (get_profile key)
        (λ prev. after_fold engine key session reason evidence prev (
          engine.process_signals (record {
            profile_id = key;
            state = state_of prev;
            signals = signals;
            outcomes = outcomes;
          })))
        (λ db p. p)
        (λ prev. after_fold-Keeps session reason evidence prev (
          engine.process_signals (record {
            profile_id = key;
            state = state_of prev;
            signals = signals;
            outcomes = outcomes;
          })))

module _ (P : RiskDb → Type 0) (engine : Engine) (r : SignalRecord)
    (puts : (new : Profile) → new.profile_id ≡ r.src_profile_id → Keeps P (put_profile new))
    (enqueues : (session : Option String) (reason : String) (score : ℕ) (evidence : String)
      → Keeps P (enqueue_review r.src_profile_id session reason score evidence))
    (converses : (state : String) → Keeps P (put_conversation_state r.session_id state)) where
  fold_signals-Keeps : (items : List Item) → Keeps P (fold_signals engine r items)
  unfolding fold_signals answer_tier get_profile
  fold_signals-Keeps [] = λ db p. p
  fold_signals-Keeps (i ∷ items) =
      fold-Keeps P engine r.src_profile_id puts enqueues (i ∷ items) [] (some r.session_id) "score"
        none

  fold_derived-Keeps : (derived : List Derived) → Keeps P (fold_derived engine r derived)
  unfolding fold_derived answer_tier get_profile participants_of
  fold_derived-Keeps [] = λ db p. p
  fold_derived-Keeps (d ∷ derived) = fold_signals-Keeps (
      derived_to_signals (d ∷ derived) r.session_id (pair_of r.src_profile_id r.dst_profile_id)
        (some r.src_profile_id))

  after_conversation-Keeps : (reply : ConvReply) → Keeps P (after_conversation engine r reply)
  unfolding after_conversation
  after_conversation-Keeps ConvReply.raises = λ db p. p
  after_conversation-Keeps (ConvReply.error m) = λ db p. p
  after_conversation-Keeps (ConvReply.out state derived) =
      Keeps-bind P (put_conversation_state r.session_id state) (λ _. fold_derived engine r derived)
        (converses state) (λ u. fold_derived-Keeps derived)

  -- What follows the insert of the event.
  pub after_insert-Keeps :
      (event : Event) (inserted : Bool) → Keeps P (after_insert engine r event inserted)
  unfolding after_insert get_conversation_state
  after_insert-Keeps event false = λ db p. p
  after_insert-Keeps event true = λ db p.
      after_conversation-Keeps
        (engine.process_conversation r.session_id (find_conversation r.session_id db.conversations)
          event)
        db p

caught-keeps :
    (P : RiskDb → Type 0) (db : RiskDb) (res : Result Response × RiskDb)
    → P db
    → P res.1
    → P (catch_rejected (settle db res)).1
unfolding catch_rejected settle
caught-keeps P db (ok a, after) p q = q
caught-keeps P db (err (engine_rejected m), after) p q = p
caught-keeps P db (err crashed, after) p q = p

-- Whatever the service answers, an ingest keeps what its writes keep.
module _ (P : RiskDb → Type 0) (engine : Engine) where
  pub ingest_record-keeps :
      (r : SignalRecord)
      → ((new : Profile) → new.profile_id ≡ r.src_profile_id → Keeps P (put_profile new))
      → ((session : Option String) (reason : String) (score : ℕ) (evidence : String)
          → Keeps P (enqueue_review r.src_profile_id session reason score evidence))
      → ((state : String) → Keeps P (put_conversation_state r.session_id state))
      → Keeps P (insert_signal_event r)
      → (db : RiskDb) → P db
      → P (ingest_record engine r db).1
  unfolding ingest_record ingest_mapped transaction ingest_event
  ingest_record-keeps r puts enqueues converses inserts db p = mapped (to_conversation_event r)
    where
      mapped : (event : Option Event) → P (ingest_mapped engine r event db).1
      mapped none = p
      mapped (some event) = caught-keeps P db (ingest_event engine r event db) p (
          Keeps-bind P (insert_signal_event r) (after_insert engine r event) inserts
            (after_insert-Keeps P engine r puts enqueues converses event) db p)

  pub ingest_outcome-keeps :
      (o : OutcomeReport)
      → ((new : Profile) → new.profile_id ≡ o.profile_id → Keeps P (put_profile new))
      → ((session : Option String) (reason : String) (score : ℕ) (evidence : String)
          → Keeps P (enqueue_review o.profile_id session reason score evidence))
      → ((row : OutcomeEvent) → Keeps P (insert_outcome row))
      → (db : RiskDb) → P db
      → P (ingest_outcome engine o db).1
  unfolding ingest_outcome transaction record_outcome insert_outcome
  ingest_outcome-keeps o puts enqueues inserts db p =
      let row : OutcomeEvent = record {
        profile_id = o.profile_id;
        reporter_id = o.reporter_id;
        session_id = o.session_id;
        tag = o.tag;
        evidence = o.evidence;
      } in
      let item : Item = record {
        tag = o.tag;
        conversation_id = outcome_conversation o.session_id o.tag;
        counterparty_id = o.reporter_id;
        created_at = none;
      } in
      caught-keeps P db (record_outcome engine o db) p (
        fold-Keeps P engine o.profile_id puts enqueues [] (item ∷ []) o.session_id
          (append_text "outcome:" o.tag) (some o.evidence) (insert_outcome row db).1
          (inserts row db p))
