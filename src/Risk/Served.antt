-- ===== src/Risk/Served.antt =====
-- Any sequence of ingests, of records and of outcomes: each is serialized by its advisory lock.
use dost_review_api.Prelude.{◌≡◌, true, some, arith}
use dost_review_api.Risk.Records.{SignalRecord, Event}
use dost_review_api.Risk.Mapping.{to_conversation_event}
use dost_review_api.Risk.Store.{
  RiskDb, ok, put_profile, put_conversation_state, insert_signal_event, has_event, insert_outcome,
  enqueue_review,
}
use dost_review_api.Risk.Keeps.{ingest_record-keeps, ingest_outcome-keeps}
use dost_review_api.Risk.Replies.{Engine, OutcomeReport, duplicate, answered}
use dost_review_api.Risk.Service.{ingest_record, ingest_outcome}
use dost_review_api.Risk.Atomic.{is_done, IsOnFile, done-IsOnFile, on_file-duplicate}
use dost_review_api.Risk.Queue.{HasSingleOpen, enqueue-HasSingleOpen, ingest_record-HasSingleOpen}

-- What the tables may become, whichever engine each ingest meets.
pub data Serves (db : RiskDb) : RiskDb → Type 0 where
  here : Serves db db
  records :
      {s : RiskDb}
      → Serves db s
      → (engine : Engine) (r : SignalRecord) → Serves db (ingest_record engine r s).1
  reports :
      {s : RiskDb}
      → Serves db s
      → (engine : Engine) (o : OutcomeReport) → Serves db (ingest_outcome engine o s).1

ingest_outcome-HasSingleOpen :
    (engine : Engine) (o : OutcomeReport) (db : RiskDb)
    → HasSingleOpen db
    → HasSingleOpen (ingest_outcome engine o db).1
ingest_outcome-HasSingleOpen engine o =
    ingest_outcome-keeps HasSingleOpen engine o
      (λ new e db h k. unfold put_profile in ground (arith, h k))
      (enqueue-HasSingleOpen o.profile_id) (λ row db h k. unfold insert_outcome in h k)

-- Whatever records and outcomes are ingested, and whatever is answered, no profile ever has two OPEN rows
-- in the review queue, if none has at first.
pub served-HasSingleOpen : (db db' : RiskDb) → Serves db db' → HasSingleOpen db → HasSingleOpen db'
served-HasSingleOpen db db' here h = h
served-HasSingleOpen db db' (records {s} before engine r) h =
    ingest_record-HasSingleOpen engine r s (served-HasSingleOpen db s before h)
served-HasSingleOpen db db' (reports {s} before engine o) h =
    ingest_outcome-HasSingleOpen engine o s (served-HasSingleOpen db s before h)

record-IsOnFile :
    (r other : SignalRecord) (engine : Engine) (db : RiskDb)
    → IsOnFile r db
    → IsOnFile r (ingest_record engine other db).1
record-IsOnFile r other engine =
    ingest_record-keeps (IsOnFile r) engine other
      (λ new e db h. unfold put_profile in ground (arith, h))
      (λ session reason score evidence db h. unfold enqueue_review in ground (arith, h))
      (λ state db h. unfold put_conversation_state in h)
      (λ db h. unfold insert_signal_event in unfold has_event in ground (arith, h))

outcome-IsOnFile :
    (r : SignalRecord) (o : OutcomeReport) (engine : Engine) (db : RiskDb)
    → IsOnFile r db
    → IsOnFile r (ingest_outcome engine o db).1
outcome-IsOnFile r o engine =
    ingest_outcome-keeps (IsOnFile r) engine o
      (λ new e db h. unfold put_profile in ground (arith, h))
      (λ session reason score evidence db h. unfold enqueue_review in ground (arith, h))
      (λ row db h. unfold insert_outcome in h)

served-IsOnFile :
    (r : SignalRecord) {db db' : RiskDb} → Serves db db' → IsOnFile r db → IsOnFile r db'
served-IsOnFile r here h = h
served-IsOnFile r (records {s} before engine other) h =
    record-IsOnFile r other engine s (served-IsOnFile r before h)
served-IsOnFile r (reports {s} before engine o) h =
    outcome-IsOnFile r o engine s (served-IsOnFile r before h)

-- After an ingest that succeeded, and whatever records and outcomes are ingested in between, a record with
-- the same session and event that can be mapped and that Postgres takes is answered as a duplicate, and
-- nothing changes, whatever else it says and whichever engines run by then.
pub served_again :
    (engine engine' : Engine) (r again : SignalRecord) (event : Event) (db db' : RiskDb)
    → is_done (ingest_record engine r db).0 ≡ true
    → Serves (ingest_record engine r db).1 db'
    → again.session_id ≡ r.session_id
    → again.event_id ≡ r.event_id
    → to_conversation_event again ≡ some event
    → again.is_storable ≡ true
    → ingest_record engine' again db' ≡ (ok (answered duplicate), db')
served_again engine engine' r again event db db' done steps same_session same_event mapped
      storable =
    on_file-duplicate engine' again event db' mapped storable
      (rw (same_session, same_event) (served-IsOnFile r steps (done-IsOnFile engine r db done)))
