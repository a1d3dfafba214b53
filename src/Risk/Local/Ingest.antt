-- ===== src/Risk/Local/Ingest.antt =====
-- The operations of the risk service, on tables that agree on the profile and the session.
use Prim.Native.String.{◌++◌ as append_text}
use dost_review_api.Prelude.{
  ℕ, ◌≡◌, refl, sym, ap, Bool, true, false, ◌∙◌, String, Option, none, some, List, [], ◌∷◌, arith,
  Bool-cases, inl, inr, leb,
}
use dost_review_api.Risk.Records.{SignalRecord, Event, Derived, Item}
use dost_review_api.Risk.Mapping.{to_conversation_event, derived_to_signals}
use dost_review_api.Risk.Store.{
  Profile, OutcomeEvent, engine_rejected, crashed, Result, ok, err, Action, pure, transaction,
  ◌>>=◌, ◌>>◌, row_fits, has_open, has_event, put_profile, insert_signal_event, enqueue_review,
  get_profile, get_conversation_state, put_conversation_state, participants_of, insert_outcome,
}
use dost_review_api.Risk.Frame.{find-upsert_profile, find-put_conversation}
use dost_review_api.Risk.Replies.{Engine, ConvReply, FoldReply, Response, OutcomeReport}
use dost_review_api.Risk.Service.{
  account_of, state_of, pair_of, queue_at, enqueue_high, store_fold, after_fold, fold, answer_tier,
  tier_of, fold_signals, fold_derived, after_conversation, after_insert, ingest_event,
  ingest_mapped, ingest_record, record_outcome, outcome_conversation, ingest_outcome, profile_row,
}
use dost_review_api.Risk.Local.{IsLocal, bind-IsLocal, transaction-IsLocal, catch-IsLocal}

module _ (key : String) (sessions : String → Bool) where
  keep-IsLocal : {A : Type 0} (r : Result A) → IsLocal key sessions (λ db. (r, db))
  keep-IsLocal r db db' agree = (refl, agree)

  get-IsLocal : IsLocal key sessions (get_profile key)
  unfolding get_profile
  get-IsLocal db db' agree = (ap ok agree.profile, agree)

  converse-IsLocal :
      (session : String)
      → sessions session ≡ true
      → IsLocal key sessions (get_conversation_state session)
  unfolding get_conversation_state
  converse-IsLocal session e db db' agree = (ap ok (agree.conversation session e), agree)

  put_state-IsLocal :
      (session state : String) → IsLocal key sessions (put_conversation_state session state)
  unfolding put_conversation_state
  put_state-IsLocal session state db db' agree = (
    refl,
    record {
      profile = agree.profile;
      opened = agree.opened;
      conversation = λ s e.
          rw
            (
              find-put_conversation session s state db.conversations,
              find-put_conversation session s state db'.conversations,
              agree.conversation s e,
            )
            refl;
      events = agree.events;
    },
  )

  put-IsLocal : (new : Profile) → new.profile_id ≡ key → IsLocal key sessions (put_profile new)
  unfolding put_profile
  put-IsLocal new e db db' agree = elim (Bool-cases (row_fits new)) [
    | inl fits ↦ rw fits (
      refl,
      record {
        profile =
            rw
              (
                find-upsert_profile new key db.profiles,
                find-upsert_profile new key db'.profiles,
                e,
                agree.profile,
              )
              refl;
        opened = agree.opened;
        conversation = agree.conversation;
        events = agree.events;
      },
    )
    | inr other ↦ rw other (refl, agree)
  ]

  insert_outcome-IsLocal : (row : OutcomeEvent) → IsLocal key sessions (insert_outcome row)
  unfolding insert_outcome
  insert_outcome-IsLocal row db db' agree = (
    refl,
    record {
      profile = agree.profile;
      opened = agree.opened;
      conversation = agree.conversation;
      events = agree.events;
    },
  )

  enqueue-IsLocal :
      (s : Option String) (reason : String) (score : ℕ) (evidence : String)
      → IsLocal key sessions (enqueue_review key s reason score evidence)
  unfolding enqueue_review
  enqueue-IsLocal s reason score evidence db db' agree = elim (Bool-cases (has_open key db.queue)) [
    | inl stored ↦ rw (stored, sym agree.opened ∙ stored) (refl, agree)
    | inr free ↦
        rw (free, sym agree.opened ∙ free)
          (
            refl,
            record {
              profile = agree.profile;
              opened = unfold has_open in ground (arith, agree.opened);
              conversation = agree.conversation;
              events = agree.events;
            },
          )
  ]

  insert_event-IsLocal :
      (r : SignalRecord)
      → sessions r.session_id ≡ true
      → IsLocal key sessions (insert_signal_event r)
  unfolding insert_signal_event
  insert_event-IsLocal r e db db' agree =
      let same : has_event r.session_id r.event_id db.signal_events
          ≡ has_event r.session_id r.event_id db'.signal_events =
        agree.events r.session_id r.event_id e in
      elim (Bool-cases r.is_storable) [
        | inr refused ↦ rw refused (refl, agree)
        | inl storable ↦ elim (Bool-cases (has_event r.session_id r.event_id db.signal_events)) [
          | inl stored ↦ rw (storable, stored, sym same ∙ stored) (refl, agree)
          | inr new ↦
              rw (storable, new, sym same ∙ new)
                (
                  refl,
                  record {
                    profile = agree.profile;
                    opened = agree.opened;
                    conversation = agree.conversation;
                    events = λ s k at. unfold has_event in ground (arith, agree.events s k at);
                  },
                )
        ]
      ]

  -- The fold of the profile.
  module _ (engine : Engine) where
    high-IsLocal :
        (s : Option String) (reason : String) (score : ℕ) (evidence : String)
        → IsLocal key sessions (enqueue_high key s reason score evidence)
    unfolding enqueue_high
    high-IsLocal s reason score evidence db db' agree = elim (Bool-cases (leb queue_at score)) [
      | inl high ↦ rw high (enqueue-IsLocal s reason score evidence db db' agree)
      | inr low ↦ rw low (refl, agree)
    ]

    after_fold-IsLocal :
        (s : Option String) (reason : String) (evidence : Option String) (prev : Option Profile)
        (reply : FoldReply)
        → IsLocal key sessions (after_fold engine key s reason evidence prev reply)
    unfolding after_fold store_fold
    after_fold-IsLocal s reason evidence prev FoldReply.raises = keep-IsLocal (err crashed)
    after_fold-IsLocal s reason evidence prev (FoldReply.error m) =
        keep-IsLocal (err (engine_rejected m))
    after_fold-IsLocal s reason evidence prev (FoldReply.out f) =
        let last : Action Response =
          pure (Response.folded f.risk_tier f.risk_score f.repeated_across) in
        let queue : Action (Unit {0}) =
          enqueue_high key s reason f.risk_score (engine.evidence_text f evidence) in
        bind-IsLocal key sessions (put_profile (profile_row key (account_of prev) f))
          (λ _. queue >> last) (put-IsLocal (profile_row key (account_of prev) f) refl)
          (λ u.
            bind-IsLocal key sessions queue (λ _. last)
              (high-IsLocal s reason f.risk_score (engine.evidence_text f evidence))
              (λ v. keep-IsLocal (ok (Response.folded f.risk_tier f.risk_score f.repeated_across))))

    pub fold-IsLocal :
        (signals outcomes : List Item) (s : Option String) (reason : String)
        (evidence : Option String)
        → IsLocal key sessions (fold engine key signals outcomes s reason evidence)
    unfolding fold
    fold-IsLocal signals outcomes s reason evidence =
        let reply : Option Profile → FoldReply = λ prev. engine.process_signals (record {
          profile_id = key;
          state = state_of prev;
          signals = signals;
          outcomes = outcomes;
        }) in
        bind-IsLocal key sessions (get_profile key)
          (λ prev. after_fold engine key s reason evidence prev (reply prev)) get-IsLocal
          (λ prev. after_fold-IsLocal s reason evidence prev (reply prev))

-- A record, on the profile of its sender and on its session.
module _ (engine : Engine) (r : SignalRecord) (sessions : String → Bool)
    (own : sessions r.session_id ≡ true) where
  answer-IsLocal : IsLocal r.src_profile_id sessions (answer_tier r.src_profile_id)
  unfolding answer_tier
  answer-IsLocal =
      bind-IsLocal r.src_profile_id sessions (get_profile r.src_profile_id)
        (λ row. pure (Response.unfolded (tier_of row))) (get-IsLocal r.src_profile_id sessions)
        (λ row. keep-IsLocal r.src_profile_id sessions (ok (Response.unfolded (tier_of row))))

  signals-IsLocal :
      (items : List Item) → IsLocal r.src_profile_id sessions (fold_signals engine r items)
  unfolding fold_signals
  signals-IsLocal [] = answer-IsLocal
  signals-IsLocal (i ∷ items) =
      fold-IsLocal r.src_profile_id sessions engine (i ∷ items) [] (some r.session_id) "score" none

  derived-IsLocal :
      (derived : List Derived) → IsLocal r.src_profile_id sessions (fold_derived engine r derived)
  unfolding fold_derived participants_of
  derived-IsLocal [] = answer-IsLocal
  derived-IsLocal (d ∷ derived) = signals-IsLocal (
      derived_to_signals (d ∷ derived) r.session_id (pair_of r.src_profile_id r.dst_profile_id)
        (some r.src_profile_id))

  conversation-IsLocal :
      (reply : ConvReply) → IsLocal r.src_profile_id sessions (after_conversation engine r reply)
  unfolding after_conversation
  conversation-IsLocal ConvReply.raises = keep-IsLocal r.src_profile_id sessions (err crashed)
  conversation-IsLocal (ConvReply.error m) =
      keep-IsLocal r.src_profile_id sessions (err (engine_rejected m))
  conversation-IsLocal (ConvReply.out state derived) =
      bind-IsLocal r.src_profile_id sessions (put_conversation_state r.session_id state)
        (λ _. fold_derived engine r derived)
        (put_state-IsLocal r.src_profile_id sessions r.session_id state)
        (λ u. derived-IsLocal derived)

  insert-IsLocal :
      (event : Event) (inserted : Bool)
      → IsLocal r.src_profile_id sessions (after_insert engine r event inserted)
  unfolding after_insert
  insert-IsLocal event false = keep-IsLocal r.src_profile_id sessions (ok Response.duplicate)
  insert-IsLocal event true =
      bind-IsLocal r.src_profile_id sessions (get_conversation_state r.session_id)
        (λ state.
          after_conversation engine r (engine.process_conversation r.session_id state event))
        (converse-IsLocal r.src_profile_id sessions r.session_id own)
        (λ state. conversation-IsLocal (engine.process_conversation r.session_id state event))

  pub ingest_record-IsLocal : IsLocal r.src_profile_id sessions (ingest_record engine r)
  unfolding ingest_record ingest_mapped ingest_event
  ingest_record-IsLocal = mapped (to_conversation_event r)
    where
      mapped :
          (event : Option Event) → IsLocal r.src_profile_id sessions (ingest_mapped engine r event)
      mapped none = keep-IsLocal r.src_profile_id sessions (err crashed)
      mapped (some event) =
          let act : Action Response =
            insert_signal_event r >>= (λ inserted. after_insert engine r event inserted) in
          catch-IsLocal r.src_profile_id sessions (transaction act) (
            transaction-IsLocal r.src_profile_id sessions act (
              bind-IsLocal r.src_profile_id sessions (insert_signal_event r)
                (after_insert engine r event) (insert_event-IsLocal r.src_profile_id sessions r own)
                (insert-IsLocal event)))

-- An outcome, on the profile that it is about and on any sessions.
pub ingest_outcome-IsLocal :
    (engine : Engine) (o : OutcomeReport) (sessions : String → Bool)
    → IsLocal o.profile_id sessions (ingest_outcome engine o)
unfolding ingest_outcome record_outcome
ingest_outcome-IsLocal engine o sessions =
    let row : OutcomeEvent = record {
      profile_id = o.profile_id;
      reporter_id = o.reporter_id;
      session_id = o.session_id;
      tag = o.tag;
      evidence = o.evidence;
    } in
    let items : List Item =
      record {
        tag = o.tag;
        conversation_id = outcome_conversation o.session_id o.tag;
        counterparty_id = o.reporter_id;
        created_at = none;
      }
      ∷ [] in
    let rest : Action Response =
      fold engine o.profile_id [] items o.session_id (append_text "outcome:" o.tag)
        (some o.evidence) in
    let act : Action Response = insert_outcome row >> rest in
    catch-IsLocal o.profile_id sessions (transaction act) (
      transaction-IsLocal o.profile_id sessions act (
        bind-IsLocal o.profile_id sessions (insert_outcome row) (λ _. rest)
          (insert_outcome-IsLocal o.profile_id sessions row)
          (λ u.
            fold-IsLocal o.profile_id sessions engine [] items o.session_id
              (append_text "outcome:" o.tag) (some o.evidence))))
