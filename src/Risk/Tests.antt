-- ===== src/Risk/Tests.antt =====
-- A record, an outcome and engines for them.
use mathlib.Core.List.{Mem, Pairwise, not-mem-nil, eq-or-mem_of_mem-cons}
use mathlib.Core.Logic.{∥∥₁_elim, inl, inr}
use mathlib.Core.List.Perm
use mathlib.Core.Quot.{Quot}
use dost_review_api.Risk.Reports.{Report, signal, AreApart, ingest}
use dost_review_api.Risk.Commute.{IsSame, ingests_commute}
use dost_review_api.Risk.Views.{RiskView, apart-prop, ingest_all, ingest_all-Perm}
use dost_review_api.Prelude.{true, eq_iff, sym, subst, ◌≡◌, refl, none, some, [], ◌∷◌, arith}
use dost_review_api.Risk.Records.{units, half_units, stage, SignalRecord, Event, member}
use dost_review_api.Risk.Mapping.{
  derived_to_signals, is_for, to_item, truthy_text, event_signals, milestones_of, event_with,
  to_conversation_event,
}
use dost_review_api.Risk.Store.{
  participants_of, row_fits, enqueue_review, has_open, put_profile, RiskDb, ok, settle, transaction,
  get_profile, get_conversation_state, put_conversation_state, insert_signal_event, has_event,
  find_profile, find_conversation, insert_outcome,
}
use dost_review_api.Risk.Replies.{
  folded, Folded, ConvReply, FoldReply, Engine, duplicate, unfolded, answered, engine_error,
  OutcomeReport,
}
use dost_review_api.Risk.Service.{
  fold_signals, store_fold, enqueue_high, tier_of, answer_tier, fold_derived, after_conversation,
  after_insert, ingest_event, catch_rejected, ingest_mapped, ingest_record, fold, after_fold,
  record_outcome, ingest_outcome,
}
use dost_review_api.Risk.Atomic.{ingest_record-rollback}
use dost_review_api.Risk.Served.{here, reports, served_again}
use dost_review_api.Risk.Answers.{ingest_record-Agrees, ingest_outcome-Agrees}
use dost_review_api.Risk.Agrees.{Agrees}

abbrev signal_record : SignalRecord
signal_record = record {
  model_version = "m1";
  ts = "2026-01-01T00:00:00Z";
  event_id = "e1";
  session_id = "s1";
  src_profile_id = "alice";
  dst_profile_id = some "bob";
  verdict = "allow";
  category = "none";
  deal_stage = stage "ledger_credit";
  turn_index = none;
  text_hash = none;
  signals = record { name = "money_ask"; confidence = units half_units } ∷ [];
  whole = "{}";
  is_storable = true;
}

-- The engine of the fold, and one that refuses every event and every fold.
abbrev output : Folded
output = record {
  state = "{}";
  risk_score = 700;
  risk_tier = "high";
  risk_tags = "[]";
  repeated_across = [];
}

abbrev engine : Engine
engine = record {
  process_conversation = λ session state event. ConvReply.out "{}" [];
  process_signals = λ input. FoldReply.out output;
  evidence_text = λ f evidence. "{}";
}

abbrev refusing : Engine
refusing = record {
  process_conversation = λ session state event. ConvReply.error "no";
  process_signals = λ input. FoldReply.error "no";
  evidence_text = λ f evidence. "{}";
}

abbrev empty : RiskDb
empty = record { signal_events = []; conversations = []; profiles = []; outcomes = []; queue = [] }

abbrev outcome : OutcomeReport
outcome = record {
  profile_id = "alice";
  tag = "not_received";
  reporter_id = some "bob";
  session_id = none;
  evidence = "{}";
}

abbrev signal_event : Event
signal_event = record {
  ts = "2026-01-01T00:00:00Z";
  sender_id = "alice";
  signals = event_signals signal_record;
  milestones = "price_agreed" ∷ "ledger_credit" ∷ [];
  text_hash = truthy_text none;
  turn_index = none;
}

returns : (ingest_record engine signal_record empty).0 ≡ ok (answered (unfolded "none"))
unfolding ingest_record to_conversation_event event_with milestones_of member ingest_mapped
    transaction ingest_event insert_signal_event has_event after_insert get_conversation_state
    find_conversation after_conversation put_conversation_state fold_derived answer_tier get_profile
    find_profile tier_of settle catch_rejected
returns = refl

refused : (ingest_record refusing signal_record empty).0 ≡ ok (engine_error "no")
unfolding ingest_record to_conversation_event event_with milestones_of member ingest_mapped
    transaction ingest_event insert_signal_event has_event after_insert get_conversation_state
    find_conversation after_conversation settle catch_rejected
refused = refl

refused_outcome : (ingest_outcome refusing outcome empty).0 ≡ ok (engine_error "no")
unfolding ingest_outcome transaction record_outcome insert_outcome fold get_profile after_fold
    settle catch_rejected
refused_outcome = refl

ingest_record-rollback_example : (ingest_record refusing signal_record empty).1 ≡ empty
ingest_record-rollback_example =
    ingest_record-rollback refusing signal_record empty (rw refused refl)

-- The record is ingested, then an outcome, and then the record again, for an engine that refuses.
abbrev recorded : RiskDb
recorded = (ingest_record engine signal_record empty).1

served_again_example :
    ingest_record refusing signal_record (ingest_outcome engine outcome recorded).1
    ≡ (ok (answered duplicate), (ingest_outcome engine outcome recorded).1)
unfolding to_conversation_event event_with milestones_of member
served_again_example =
    served_again engine refusing signal_record signal_record signal_event empty
      (ingest_outcome engine outcome recorded).1 (rw returns refl) (reports here engine outcome)
      refl refl refl refl

-- An engine that derives a tag from the record.
abbrev deriving_engine : Engine
deriving_engine = record engine {
  process_conversation = λ session state event.
      ConvReply.out "{}"
        (record { tag = "money_ask_no_milestone"; profile_id = "alice"; ts = "now" } ∷ []);
}

folds : (ingest_record deriving_engine signal_record empty).0 ≡ ok (answered (folded "high" 700 []))
unfolding ingest_record to_conversation_event event_with milestones_of member ingest_mapped
    transaction ingest_event insert_signal_event has_event after_insert get_conversation_state
    find_conversation after_conversation put_conversation_state fold_derived participants_of
    fold_signals derived_to_signals is_for to_item get_profile find_profile settle catch_rejected
    fold after_fold store_fold put_profile row_fits enqueue_high enqueue_review has_open
folds = refl

ingest_record-Agrees_example :
    Agrees "alice"
      (answered (folded "high" 700 []))
      (ingest_record deriving_engine signal_record empty).1
ingest_record-Agrees_example =
    ingest_record-Agrees deriving_engine signal_record empty (answered (folded "high" 700 [])) folds

folds_outcome : (ingest_outcome engine outcome empty).0 ≡ ok (answered (folded "high" 700 []))
unfolding ingest_outcome transaction record_outcome insert_outcome member settle catch_rejected fold
    get_profile find_profile after_fold store_fold put_profile row_fits enqueue_high enqueue_review
    has_open
folds_outcome = refl

ingest_outcome-Agrees_example :
    Agrees "alice" (answered (folded "high" 700 [])) (ingest_outcome engine outcome empty).1
ingest_outcome-Agrees_example =
    ingest_outcome-Agrees engine outcome empty (answered (folded "high" 700 [])) folds_outcome

-- A record of another session about another profile.
abbrev other_record : SignalRecord
other_record = record signal_record {
  session_id = "s2";
  src_profile_id = "carol";
  dst_profile_id = none;
}

apart : AreApart (signal signal_record) (signal other_record)
apart = record {
  profiles = refl;
  sessions = λ s own. ground (arith, own, eq_iff "s1" s, eq_iff "s2" s, eq_iff "s1" "s2");
}

ingests_commute_example :
    ((ingest engine (signal signal_record) (ingest engine (signal other_record) empty).1).0
      ≡ (ingest engine (signal signal_record) empty).0)
    × ((ingest engine (signal other_record) (ingest engine (signal signal_record) empty).1).0
        ≡ (ingest engine (signal other_record) empty).0)
    × IsSame
        (ingest engine (signal other_record) (ingest engine (signal signal_record) empty).1).1
        (ingest engine (signal signal_record) (ingest engine (signal other_record) empty).1).1
ingests_commute_example =
    ingests_commute engine engine (signal signal_record) (signal other_record) empty apart

not_apart : (a c : Report) → Mem c [] → AreApart a c
not_apart a c m = absurd (not-mem-nil m)

only_other : (c : Report) → Mem c (signal other_record ∷ []) → AreApart (signal signal_record) c
only_other c m = ∥∥₁_elim (eq-or-mem_of_mem-cons m) (apart-prop (signal signal_record) c) (λ found.
    elim found [
      | inl same ↦ subst (λ (b : Report). AreApart (signal signal_record) b) (sym same) apart
      | inr none_left ↦ not_apart (signal signal_record) c none_left
    ])

all_apart : Pairwise AreApart (signal signal_record ∷ signal other_record ∷ [])
all_apart = Pairwise.cons only_other (Pairwise.cons (not_apart (signal other_record)) Pairwise.nil)

ingest_all-Perm_example :
    ◌≡◌ {A = RiskView}
      (Quot.mk (ingest_all engine (signal signal_record ∷ signal other_record ∷ []) empty))
      (Quot.mk (ingest_all engine (signal other_record ∷ signal signal_record ∷ []) empty))
ingest_all-Perm_example =
    ingest_all-Perm engine (signal signal_record ∷ signal other_record ∷ [])
      (signal other_record ∷ signal signal_record ∷ []) empty
      (Perm.swap (signal other_record) (signal signal_record) []) all_apart
