-- ===== src/Risk/Reports.antt =====
-- What an ingest reads, and what it leaves alone.
use dost_review_api.Prelude.{
  ℕ, ◌==◌, eq_refl, ◌≡◌, refl, Bool, true, false, ◌∙◌, String, Option, arith,
}
use dost_review_api.Risk.Records.{SignalRecord}
use dost_review_api.Risk.Store.{
  Profile, RiskDb, Action, find_profile, find_conversation, has_open, has_event, put_profile,
  put_conversation_state, insert_signal_event, enqueue_review, insert_outcome,
}
use dost_review_api.Risk.Keeps.{ingest_record-keeps, ingest_outcome-keeps}
use dost_review_api.Risk.Frame.{
  profile-other, find-put_conversation, enqueue-profiles, enqueue-conversations, insert-profiles,
  insert-conversations, put_profile-conversations,
}
use dost_review_api.Risk.Replies.{Engine, OutcomeReport, Answered}
use dost_review_api.Risk.Service.{ingest_record, ingest_outcome}
use dost_review_api.Risk.Local.{IsLocal}
use dost_review_api.Risk.Local.Ingest.{ingest_record-IsLocal, ingest_outcome-IsLocal}

-- What is ingested.
pub data Report : Type 0 where
  signal : SignalRecord → Report
  outcome : OutcomeReport → Report

abbrev pub ingest : Engine → Report → Action Answered
ingest engine (signal r) = ingest_record engine r
ingest engine (outcome o) = ingest_outcome engine o

-- The profile that it is about, and the session that it belongs to.
abbrev pub subject_of : Report → String
subject_of (signal r) = r.src_profile_id
subject_of (outcome o) = o.profile_id

abbrev pub is_of : Report → String → Bool
is_of (signal r) s = r.session_id == s
is_of (outcome o) s = false

-- Two reports about different profiles, which are not of the same session.
pub record AreApart (a b : Report) : Type 0 where
  pub profiles : (subject_of a == subject_of b) ≡ false
  pub sessions : (s : String) → is_of a s ≡ true → is_of b s ≡ false

-- What an ingest leaves as it was.
pub record Leaves (a : Report) (before after : RiskDb) : Type 0 where
  pub profile :
      (k : String)
      → (subject_of a == k) ≡ false
      → find_profile k after.profiles ≡ find_profile k before.profiles
  pub opened :
      (k : String) → (subject_of a == k) ≡ false → has_open k after.queue ≡ has_open k before.queue
  pub conversation :
      (s : String)
      → is_of a s ≡ false
      → find_conversation s after.conversations ≡ find_conversation s before.conversations
  pub events :
      (s e : String)
      → is_of a s ≡ false
      → has_event s e after.signal_events ≡ has_event s e before.signal_events

enqueue-opened :
    (key k : String) (s : Option String) (reason : String) (score : ℕ) (evidence : String)
    (db : RiskDb)
    → (key == k) ≡ false
    → has_open k (enqueue_review key s reason score evidence db).1.queue ≡ has_open k db.queue
unfolding enqueue_review has_open
enqueue-opened key k s reason score evidence db ne = ground (arith, ne)

enqueue-events :
    (key : String) (s : Option String) (reason : String) (score : ℕ) (evidence : String)
    (db : RiskDb)
    → (enqueue_review key s reason score evidence db).1.signal_events ≡ db.signal_events
unfolding enqueue_review
enqueue-events key s reason score evidence db = ground arith

enqueue-Leaves :
    (a : Report) (before db : RiskDb) (key : String) (s : Option String) (reason : String)
    (score : ℕ) (evidence : String)
    → key ≡ subject_of a
    → Leaves a before db
    → Leaves a before (enqueue_review key s reason score evidence db).1
enqueue-Leaves a before db key s reason score evidence e h = record {
  profile = λ k ne. rw enqueue-profiles (h.profile k ne);
  opened = λ k ne. enqueue-opened key k s reason score evidence db (rw e ne) ∙ h.opened k ne;
  conversation = λ t ne. rw enqueue-conversations (h.conversation t ne);
  events = λ t k ne. rw enqueue-events (h.events t k ne);
}

put_profile-queue : (new : Profile) (db : RiskDb) → (put_profile new db).1.queue ≡ db.queue
unfolding put_profile
put_profile-queue new db = ground arith

put_profile-events :
    (new : Profile) (db : RiskDb) → (put_profile new db).1.signal_events ≡ db.signal_events
unfolding put_profile
put_profile-events new db = ground arith

put-Leaves :
    (a : Report) (before db : RiskDb) (new : Profile)
    → new.profile_id ≡ subject_of a
    → Leaves a before db
    → Leaves a before (put_profile new db).1
put-Leaves a before db new e h = record {
  profile = λ k ne. profile-other new k db (rw e ne) ∙ h.profile k ne;
  opened = λ k ne. rw put_profile-queue (h.opened k ne);
  conversation = λ t ne. rw put_profile-conversations (h.conversation t ne);
  events = λ t k ne. rw put_profile-events (h.events t k ne);
}

converse-Leaves :
    (r : SignalRecord) (before db : RiskDb) (state : String)
    → Leaves (signal r) before db
    → Leaves (signal r) before (put_conversation_state r.session_id state db).1
unfolding put_conversation_state
converse-Leaves r before db state h = record {
  profile = h.profile;
  opened = h.opened;
  conversation = λ t ne.
      find-put_conversation r.session_id t state db.conversations ∙ rw ne (h.conversation t ne);
  events = h.events;
}

insert-Leaves :
    (r : SignalRecord) (before db : RiskDb)
    → Leaves (signal r) before db
    → Leaves (signal r) before (insert_signal_event r db).1
insert-Leaves r before db h = record {
  profile = λ k ne. rw insert-profiles (h.profile k ne);
  opened = λ k ne. unfold insert_signal_event in ground (arith, h.opened k ne);
  conversation = λ t ne. rw insert-conversations (h.conversation t ne);
  events = λ t k ne.
      unfold insert_signal_event in unfold has_event in ground (arith, ne, h.events t k ne);
}

Leaves-refl : (a : Report) (db : RiskDb) → Leaves a db db
Leaves-refl a db = record {
  profile = λ k ne. refl;
  opened = λ k ne. refl;
  conversation = λ s ne. refl;
  events = λ s e ne. refl;
}

-- An ingest leaves what is stored of other profiles and of other sessions.
pub ingest-Leaves :
    (engine : Engine) (a : Report) (db : RiskDb) → Leaves a db (ingest engine a db).1
ingest-Leaves engine (signal r) db =
    ingest_record-keeps (Leaves (signal r) db) engine r
      (λ new e after h. put-Leaves (signal r) db after new e h)
      (λ s reason score evidence after h.
        enqueue-Leaves (signal r) db after r.src_profile_id s reason score evidence refl h)
      (λ state after h. converse-Leaves r db after state h) (λ after h. insert-Leaves r db after h)
      db (Leaves-refl (signal r) db)
ingest-Leaves engine (outcome o) db =
    ingest_outcome-keeps (Leaves (outcome o) db) engine o
      (λ new e after h. put-Leaves (outcome o) db after new e h)
      (λ s reason score evidence after h.
        enqueue-Leaves (outcome o) db after o.profile_id s reason score evidence refl h)
      (λ row after h.
        unfold insert_outcome in
        record {
          profile = h.profile;
          opened = h.opened;
          conversation = h.conversation;
          events = h.events;
        })
      db (Leaves-refl (outcome o) db)

pub ingest-IsLocal :
    (engine : Engine) (a : Report) → IsLocal (subject_of a) (is_of a) (ingest engine a)
ingest-IsLocal engine (signal r) =
    ingest_record-IsLocal engine r (is_of (signal r)) (eq_refl r.session_id)
ingest-IsLocal engine (outcome o) = ingest_outcome-IsLocal engine o (is_of (outcome o))
