-- ===== src/Risk/Local.antt =====
-- An ingest reads and writes only what is stored of its profile and of its session.
pub mod Ingest
use Prim.Native.String.{◌++◌ as append_text}
use dost_review_api.Prelude.{
  ℕ, ◌==◌, ◌&&◌, ◌||◌, eq_iff, eq_refl, ◌≡◌, refl, sym, ap, subst, Bool, true, false, ◌∙◌, String,
  Option, none, some, List, [], ◌∷◌, arith, any, if◌then◌else◌, Bool-cases, inl, inr, leb,
}
use dost_review_api.Risk.Records.{SignalRecord, Event, Derived, Item}
use dost_review_api.Risk.Mapping.{to_conversation_event, derived_to_signals}
use dost_review_api.Risk.Store.{
  Profile, OutcomeEvent, RiskDb, Failure, engine_rejected, crashed, Result, ok, err, Action, pure,
  raise, gets, transaction, settle, ◌>>=◌, ◌>>◌, is_open, coalesce, row_fits, find_profile,
  find_conversation, has_open, has_event, put_conversation, upsert_profile, put_profile,
  insert_signal_event, enqueue_review, get_profile, get_conversation_state, put_conversation_state,
  participants_of, insert_outcome,
}
use dost_review_api.Risk.Frame.{stored_account, find-upsert_profile, find-put_conversation}
use dost_review_api.Risk.Replies.{
  Engine, ConvReply, FoldReply, Folded, Response, OutcomeReport, Answered,
}
use dost_review_api.Risk.Service.{
  account_of, state_of, pair_of, queue_at, enqueue_high, store_fold, after_fold, fold, answer_tier,
  fold_signals, fold_derived, after_conversation, after_insert, ingest_event, catch_rejected,
  ingest_mapped, ingest_record, record_outcome, outcome_conversation, ingest_outcome, profile_row,
}

-- The tables agree on a profile and on some sessions.
pub record AgreeAt (profile_id : String) (sessions : String → Bool) (db db' : RiskDb) : Type 0 where
  pub profile : find_profile profile_id db.profiles ≡ find_profile profile_id db'.profiles
  pub opened : has_open profile_id db.queue ≡ has_open profile_id db'.queue
  pub conversation :
      (session : String)
      → sessions session ≡ true
      → find_conversation session db.conversations ≡ find_conversation session db'.conversations
  pub events :
      (session event_id : String)
      → sessions session ≡ true
      → has_event session event_id db.signal_events ≡ has_event session event_id db'.signal_events

module _ (key : String) (sessions : String → Bool) where
  abbrev pub Alike : {A : Type 0} → Result A × RiskDb → Result A × RiskDb → Type 0
  Alike r r' = (r.0 ≡ r'.0) × AgreeAt key sessions r.1 r'.1

  -- The action gives the same result, and tables that agree, on tables that agree.
  abbrev pub IsLocal : {A : Type 0} → Action A → Type 0
  IsLocal m = (db db' : RiskDb) → AgreeAt key sessions db db' → Alike (m db) (m db')

  continued : {A B : Type 0} → (A → Action B) → Result A → Action B
  continued k (ok a) db = k a db
  continued k (err e) db = (err e, db)

  bind-continued :
      {A B : Type 0} (m : Action A) (k : A → Action B) (db : RiskDb)
      → (m >>= k) db ≡ continued k (m db).0 (m db).1
  unfolding continued
  bind-continued {A} {B} m k db = go (m db).0 (m db).1
    where
      go :
          (r : Result A) (after : RiskDb)
          → (elim r as (λ _. Result B × RiskDb) [ ok a ↦ k a after | err e ↦ (err e, after) ])
            ≡ continued k r after
      go (ok a) after = refl
      go (err e) after = refl

  continued-IsLocal :
      {A B : Type 0} (k : A → Action B) (r : Result A)
      → ((a : A) → IsLocal (k a))
      → IsLocal (continued k r)
  unfolding continued
  continued-IsLocal k (ok a) h db db' agree = h a db db' agree
  continued-IsLocal k (err e) h db db' agree = (refl, agree)

  pub bind-IsLocal :
      {A B : Type 0} (m : Action A) (k : A → Action B)
      → IsLocal m
      → ((a : A) → IsLocal (k a))
      → IsLocal (m >>= k)
  bind-IsLocal {A} {B} m k hm hk db db' agree =
      let (e, after) = hm db db' agree in
      rw (bind-continued m k db, bind-continued m k db')
        (subst (λ (r : Result A). Alike (continued k (m db).0 (m db).1) (continued k r (m db').1)) e
          (continued-IsLocal k (m db).0 hk (m db).1 (m db').1 after))

  settled-Alike :
      {A : Type 0} (before before' after after' : RiskDb) (r : Result A)
      → AgreeAt key sessions before before'
      → AgreeAt key sessions after after'
      → Alike (settle before (r, after)) (settle before' (r, after'))
  unfolding settle
  settled-Alike before before' after after' (ok a) h j = (refl, j)
  settled-Alike before before' after after' (err e) h j = (refl, h)

  pub transaction-IsLocal : {A : Type 0} (m : Action A) → IsLocal m → IsLocal (transaction m)
  unfolding transaction
  transaction-IsLocal {A} m hm db db' agree =
      let (e, after) = hm db db' agree in
      subst (λ (r : Result A). Alike (settle db (m db)) (settle db' (r, (m db').1))) e
        (settled-Alike db db' (m db).1 (m db').1 (m db).0 agree after)

  caught-Alike :
      (r : Result Response) (after after' : RiskDb)
      → AgreeAt key sessions after after'
      → Alike (catch_rejected (r, after)) (catch_rejected (r, after'))
  unfolding catch_rejected
  caught-Alike (ok a) after after' h = (refl, h)
  caught-Alike (err (engine_rejected m)) after after' h = (refl, h)
  caught-Alike (err crashed) after after' h = (refl, h)

  pub catch-IsLocal : (m : Action Response) → IsLocal m → IsLocal (λ db. catch_rejected (m db))
  catch-IsLocal m hm db db' agree =
      let (e, after) = hm db db' agree in
      subst (λ (r : Result Response). Alike (catch_rejected (m db)) (catch_rejected (r, (m db').1)))
        e (caught-Alike (m db).0 (m db).1 (m db').1 after)
