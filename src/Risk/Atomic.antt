-- ===== src/Risk/Atomic.antt =====
-- An ingest is all or nothing, and a record is folded at most once.
use dost_review_api.Prelude.{
  Bool, true, false, Bool-cases, inl, inr, eq_iff, ◌≡◌, refl, ap, ◌∙◌, Option, none, some, arith,
}
use dost_review_api.Risk.Records.{SignalRecord, Event}
use dost_review_api.Risk.Mapping.{to_conversation_event}
use dost_review_api.Risk.Store.{
  RiskDb, engine_rejected, crashed, Result, ok, err, Action, raise, transaction, settle, ◌>>=◌,
  put_profile, insert_signal_event, has_event, enqueue_review, put_conversation_state,
}
use dost_review_api.Risk.Keeps.{bind-keeps, after_insert-Keeps}
use dost_review_api.Risk.Replies.{Engine, Response, duplicate, Answered, answered, OutcomeReport}
use dost_review_api.Risk.Service.{
  after_insert, ingest_event, catch_rejected, ingest_mapped, ingest_record, record_outcome,
  ingest_outcome,
}

-- The caller is told of a success.
abbrev pub is_done : Result Answered → Bool
is_done (ok (answered r)) = true
is_done _ = false

catch-rollback :
    (before : RiskDb) (r : Result Response × RiskDb)
    → is_done (catch_rejected (settle before r)).0 ≡ false
    → (catch_rejected (settle before r)).1 ≡ before
unfolding catch_rejected settle
catch-rollback before (ok a, after) h = cc
catch-rollback before (err (engine_rejected m), after) h = refl
catch-rollback before (err crashed, after) h = refl

mapped-rollback :
    (engine : Engine) (r : SignalRecord) (event : Option Event) (db : RiskDb)
    → is_done (ingest_mapped engine r event db).0 ≡ false
    → (ingest_mapped engine r event db).1 ≡ db
unfolding ingest_mapped transaction
mapped-rollback engine r none db h = refl
mapped-rollback engine r (some event) db h = catch-rollback db (ingest_event engine r event db) h

-- An ingest of a record that the engine refuses, or that raises anywhere, leaves every table as it
-- was.
pub ingest_record-rollback :
    (engine : Engine) (r : SignalRecord) (db : RiskDb)
    → is_done (ingest_record engine r db).0 ≡ false
    → (ingest_record engine r db).1 ≡ db
unfolding ingest_record
ingest_record-rollback engine r db = mapped-rollback engine r (to_conversation_event r) db

-- An outcome that the engine refuses, or in whose ingest anything raises, leaves every table as it
-- was: its own row is rolled back too.
pub ingest_outcome-rollback :
    (engine : Engine) (o : OutcomeReport) (db : RiskDb)
    → is_done (ingest_outcome engine o db).0 ≡ false
    → (ingest_outcome engine o db).1 ≡ db
unfolding ingest_outcome transaction
ingest_outcome-rollback engine o db = catch-rollback db (record_outcome engine o db)

-- The event of a record is on file.
abbrev pub IsOnFile : SignalRecord → RiskDb → Type 0
IsOnFile r db = has_event r.session_id r.event_id db.signal_events ≡ true

insert-IsOnFile :
    (r : SignalRecord) (db : RiskDb)
    → r.is_storable ≡ true
    → IsOnFile r (insert_signal_event r db).1
unfolding insert_signal_event has_event
insert-IsOnFile r db storable =
    ground (arith, eq_iff r.session_id r.session_id, eq_iff r.event_id r.event_id)

event-IsOnFile :
    (engine : Engine) (r : SignalRecord) (event : Event) (db : RiskDb)
    → r.is_storable ≡ true
    → IsOnFile r (ingest_event engine r event db).1
unfolding ingest_event
event-IsOnFile engine r event db storable =
    bind-keeps (IsOnFile r) (insert_signal_event r) (after_insert engine r event) db
      (insert-IsOnFile r db storable)
      (after_insert-Keeps (IsOnFile r) engine r (λ new e db p. unfold put_profile in ground arith)
        (λ session reason score evidence db p. unfold enqueue_review in ground arith)
        (λ state db p. unfold put_conversation_state in p) event)

bind-err :
    {A B : Type 0} (m : Action A) (k : A → Action B) (db : RiskDb)
    → m db ≡ (err crashed, db)
    → (m >>= k) db ≡ (err crashed, db)
bind-err m k db e = ap (λ x. elim x.0 [ ok b ↦ k b x.1 | err f ↦ raise f x.1 ]) e

event-raises :
    (engine : Engine) (r : SignalRecord) (event : Event) (db : RiskDb)
    → r.is_storable ≡ false
    → ingest_event engine r event db ≡ (err crashed, db)
unfolding ingest_event insert_signal_event
event-raises engine r event db refused =
    bind-err (insert_signal_event r) (after_insert engine r event) db (rw refused refl)

pub done-IsOnFile :
    (engine : Engine) (r : SignalRecord) (db : RiskDb)
    → is_done (ingest_record engine r db).0 ≡ true
    → IsOnFile r (ingest_record engine r db).1
unfolding ingest_record ingest_mapped transaction catch_rejected settle
done-IsOnFile engine r db = go (to_conversation_event r)
  where
    caught :
        (res : Result Response × RiskDb)
        → IsOnFile r res.1
        → is_done (catch_rejected (settle db res)).0 ≡ true
        → IsOnFile r (catch_rejected (settle db res)).1
    caught (ok a, after) p h = p
    caught (err (engine_rejected m), after) p h = cc
    caught (err crashed, after) p h = cc

    go :
        (event : Option Event)
        → is_done (ingest_mapped engine r event db).0 ≡ true
        → IsOnFile r (ingest_mapped engine r event db).1
    go none h = cc
    go (some event) h = elim (Bool-cases r.is_storable) [
      | inl storable ↦
          caught (ingest_event engine r event db) (event-IsOnFile engine r event db storable) h
      | inr refused ↦ absurd (cc (rw (event-raises engine r event db refused) at h))
    ]

insert-on_file :
    (r : SignalRecord) (db : RiskDb)
    → r.is_storable ≡ true
    → IsOnFile r db
    → insert_signal_event r db ≡ (ok false, db)
unfolding insert_signal_event
insert-on_file r db storable on_file = ground arith

bind-ok :
    {A B : Type 0} (m : Action A) (k : A → Action B) (db after : RiskDb) (a : A)
    → m db ≡ (ok a, after)
    → (m >>= k) db ≡ k a after
bind-ok m k db after a e = ap (λ x. elim x.0 [ ok b ↦ k b x.1 | err f ↦ raise f x.1 ]) e

-- The answer to a record on file.
mapped-duplicate :
    (engine : Engine) (r : SignalRecord) (event : Event) (db : RiskDb)
    → r.is_storable ≡ true
    → IsOnFile r db
    → ingest_mapped engine r (some event) db ≡ (ok (answered duplicate), db)
unfolding ingest_mapped transaction ingest_event after_insert
mapped-duplicate engine r event db storable on_file =
    ap (λ x. catch_rejected (settle db x))
      (bind-ok (insert_signal_event r) (after_insert engine r event) db db false
        (insert-on_file r db storable on_file))
    ∙ (unfold catch_rejected settle in refl)

pub on_file-duplicate :
    (engine : Engine) (r : SignalRecord) (event : Event) (db : RiskDb)
    → to_conversation_event r ≡ some event
    → r.is_storable ≡ true
    → IsOnFile r db
    → ingest_record engine r db ≡ (ok (answered duplicate), db)
unfolding ingest_record
on_file-duplicate engine r event db mapped storable on_file =
    rw mapped (mapped-duplicate engine r event db storable on_file)
