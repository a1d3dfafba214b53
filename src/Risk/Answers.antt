-- ===== src/Risk/Answers.antt =====
-- What an ingest answers is what `GET /risk/profile/{id}` shows next.
use Prim.Native.String.{◌++◌ as append_text}
use dost_review_api.Prelude.{
  ap, subst, Bool, true, false, ◌≡◌, String, Option, none, some, List, [], ◌∷◌,
}
use dost_review_api.Risk.Records.{SignalRecord, Event, Derived, Item}
use dost_review_api.Risk.Mapping.{to_conversation_event, derived_to_signals}
use dost_review_api.Risk.Store.{
  insert_outcome, OutcomeEvent, Profile, RiskDb, engine_rejected, crashed, Result, ok, err, pure,
  settle, transaction, ◌>>◌, find_profile, get_profile, put_profile, insert_signal_event,
  get_conversation_state, put_conversation_state, participants_of, find_conversation,
}
use dost_review_api.Risk.Replies.{
  OutcomeReport, Engine, ConvReply, FoldReply, Folded, Response, folded, Answered,
}
use dost_review_api.Risk.Service.{
  outcome_conversation, record_outcome, ingest_outcome, account_of, state_of, profile_row, pair_of,
  enqueue_high, store_fold, after_fold, fold, fold_signals, fold_derived, after_conversation,
  after_insert, ingest_event, catch_rejected, ingest_mapped, ingest_record,
}
use dost_review_api.Risk.Agrees.{
  IsQueued, Agrees, AgreesIf, bind-AgreesIf, Anything, answer_tier-Agrees, Shows, put-Shows,
  enqueue-Shows, enqueue_high-IsQueued,
}

module _ (engine : Engine) (k : String) (session : Option String) (reason : String)
    (evidence : Option String) where
  store_fold-Agrees :
      (prev : Option Profile) (f : Folded) (db : RiskDb)
      → AgreesIf k (store_fold engine k session reason evidence prev f db)
  unfolding store_fold AgreesIf Agrees
  store_fold-Agrees prev f db =
      bind-AgreesIf k (Shows k f)
        (λ u.
          enqueue_high k session reason f.risk_score (engine.evidence_text f evidence)
          >> pure (folded f.risk_tier f.risk_score f.repeated_across))
        (put_profile (profile_row k (account_of prev) f)) db (put-Shows k (account_of prev) f db)
        (λ u after p.
          bind-AgreesIf k (λ last. Shows k f last × IsQueued k f.risk_score last)
            (λ v. pure (folded f.risk_tier f.risk_score f.repeated_across))
            (enqueue_high k session reason f.risk_score (engine.evidence_text f evidence)) after
            (λ v e. (
              enqueue-Shows k session reason f.risk_score (engine.evidence_text f evidence) f after
                  p,
              enqueue_high-IsQueued k session reason f.risk_score (engine.evidence_text f evidence)
                  after,
            ))
            (λ v last q. q))

  after_fold-Agrees :
      (prev : Option Profile) (reply : FoldReply) (db : RiskDb)
      → AgreesIf k (after_fold engine k session reason evidence prev reply db)
  unfolding after_fold AgreesIf
  after_fold-Agrees prev FoldReply.raises db = tt
  after_fold-Agrees prev (FoldReply.error m) db = tt
  after_fold-Agrees prev (FoldReply.out f) db = store_fold-Agrees prev f db

  fold-Agrees :
      (signals outcomes : List Item) (db : RiskDb)
      → AgreesIf k (fold engine k signals outcomes session reason evidence db)
  unfolding fold get_profile
  fold-Agrees signals outcomes db =
      after_fold-Agrees (find_profile k db.profiles)
        (engine.process_signals (record {
          profile_id = k;
          state = state_of (find_profile k db.profiles);
          signals = signals;
          outcomes = outcomes;
        }))
        db

module _ (engine : Engine) (r : SignalRecord) where
  fold_signals-Agrees :
      (items : List Item) (db : RiskDb) → AgreesIf r.src_profile_id (fold_signals engine r items db)
  unfolding fold_signals
  fold_signals-Agrees [] db = answer_tier-Agrees r.src_profile_id db
  fold_signals-Agrees (i ∷ items) db =
      fold-Agrees engine r.src_profile_id (some r.session_id) "score" none (i ∷ items) [] db

  fold_derived-Agrees :
      (derived : List Derived) (db : RiskDb)
      → AgreesIf r.src_profile_id (fold_derived engine r derived db)
  unfolding fold_derived participants_of
  fold_derived-Agrees [] db = answer_tier-Agrees r.src_profile_id db
  fold_derived-Agrees (d ∷ derived) db =
      fold_signals-Agrees
        (derived_to_signals (d ∷ derived) r.session_id (pair_of r.src_profile_id r.dst_profile_id)
          (some r.src_profile_id))
        db

  after_conversation-Agrees :
      (reply : ConvReply) (db : RiskDb)
      → AgreesIf r.src_profile_id (after_conversation engine r reply db)
  unfolding after_conversation AgreesIf
  after_conversation-Agrees ConvReply.raises db = tt
  after_conversation-Agrees (ConvReply.error m) db = tt
  after_conversation-Agrees (ConvReply.out state derived) db =
      bind-AgreesIf r.src_profile_id Anything (λ u. fold_derived engine r derived)
        (put_conversation_state r.session_id state) db (λ u e. tt)
        (λ u after p. fold_derived-Agrees derived after)

  after_insert-Agrees :
      (event : Event) (inserted : Bool) (db : RiskDb)
      → AgreesIf r.src_profile_id (after_insert engine r event inserted db)
  unfolding after_insert AgreesIf Agrees get_conversation_state
  after_insert-Agrees event false db = tt
  after_insert-Agrees event true db =
      after_conversation-Agrees
        (engine.process_conversation r.session_id (find_conversation r.session_id db.conversations)
          event)
        db

  event-Agrees :
      (event : Event) (db : RiskDb) → AgreesIf r.src_profile_id (ingest_event engine r event db)
  unfolding ingest_event
  event-Agrees event db =
      bind-AgreesIf r.src_profile_id Anything (after_insert engine r event) (insert_signal_event r)
        db (λ inserted e. tt) (λ inserted after p. after_insert-Agrees event inserted after)

abbrev answer_or : Answered → Result Answered → Answered
answer_or b (ok a) = a
answer_or b (err e) = b

caught-Agrees :
    (k : String) (db : RiskDb) (x : Result Response × RiskDb) (a : Answered)
    → AgreesIf k x
    → (catch_rejected (settle db x)).0 ≡ ok a
    → Agrees k a (catch_rejected (settle db x)).1
unfolding catch_rejected settle AgreesIf
caught-Agrees k db (ok r, after) a h e = subst (λ b. Agrees k b after) (ap (answer_or a) e) h
caught-Agrees k db (err (engine_rejected m), after) a h e =
    subst (λ b. Agrees k b db) (ap (answer_or a) e) (unfold Agrees in tt)
caught-Agrees k db (err crashed, after) a h e = cc

-- When an ingest returns, the tier, the score and the profiles that it answers are those that a reader of
-- the sender's risk profile is shown from then on; and if it answers a score of 60 or more, the sender has
-- an OPEN row in the review queue.
pub ingest_record-Agrees :
    (engine : Engine) (r : SignalRecord) (db : RiskDb) (a : Answered)
    → (ingest_record engine r db).0 ≡ ok a
    → Agrees r.src_profile_id a (ingest_record engine r db).1
unfolding ingest_record ingest_mapped transaction
ingest_record-Agrees engine r db a = go (to_conversation_event r)
  where
    go :
        (event : Option Event)
        → (ingest_mapped engine r event db).0 ≡ ok a
        → Agrees r.src_profile_id a (ingest_mapped engine r event db).1
    go none e = cc
    go (some event) e =
        caught-Agrees r.src_profile_id db (ingest_event engine r event db) a
          (event-Agrees engine r event db) e

-- When the ingest of an outcome returns, the tier, the score and the profiles that it answers are those
-- that a reader of its profile is shown from then on; and if it answers a score of 60 or more, that
-- profile has an OPEN row in the review queue.
pub ingest_outcome-Agrees :
    (engine : Engine) (o : OutcomeReport) (db : RiskDb) (a : Answered)
    → (ingest_outcome engine o db).0 ≡ ok a
    → Agrees o.profile_id a (ingest_outcome engine o db).1
unfolding ingest_outcome transaction record_outcome insert_outcome
ingest_outcome-Agrees engine o db a =
    let item : Item = record {
      tag = o.tag;
      conversation_id = outcome_conversation o.session_id o.tag;
      counterparty_id = o.reporter_id;
      created_at = none;
    } in
    let row : OutcomeEvent = record {
      profile_id = o.profile_id;
      reporter_id = o.reporter_id;
      session_id = o.session_id;
      tag = o.tag;
      evidence = o.evidence;
    } in
    caught-Agrees o.profile_id db (record_outcome engine o db) a (
      fold-Agrees engine o.profile_id o.session_id (append_text "outcome:" o.tag) (some o.evidence)
        [] (item ∷ []) (insert_outcome row db).1)
