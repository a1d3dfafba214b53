-- ===== src/Risk/Frame.antt =====
-- Whose state an ingest changes.
use dost_review_api.Prelude.{
  ◌∙◌, ℕ, false, ◌==◌, eq_iff, ◌≡◌, refl, String, Option, none, some, List, [], ◌∷◌, arith,
  Bool-cases, inl, inr, if◌then◌else◌,
}
use dost_review_api.Risk.Records.{SignalRecord}
use dost_review_api.Risk.Store.{
  Profile, Conversation, RiskDb, coalesce, find_profile, upsert_profile, find_conversation,
  put_conversation, put_profile, put_conversation_state, insert_signal_event, enqueue_review,
  row_fits,
}
use dost_review_api.Risk.Keeps.{ingest_record-keeps}
use dost_review_api.Risk.Replies.{Engine}
use dost_review_api.Risk.Service.{ingest_record}

unfoldable pub stored_account : Option Profile → Option String
stored_account none = none
stored_account (some p) = p.account_id

coalesce-none : (a : Option String) → coalesce a none ≡ a
unfolding coalesce
coalesce-none none = refl
coalesce-none (some a) = refl

pub find-upsert_profile :
    (new : Profile) (k : String) (rows : List Profile)
    → find_profile k (upsert_profile new rows) ≡ (
        if new.profile_id == k
        then some (record new {
          account_id = coalesce new.account_id (stored_account (find_profile new.profile_id rows));
        })
        else find_profile k rows)
unfolding find_profile upsert_profile stored_account coalesce
find-upsert_profile new k [] = rw coalesce-none refl
find-upsert_profile new k (p ∷ rows) = ground (
  arith,
  find-upsert_profile new k rows,
  eq_iff p.profile_id new.profile_id,
  eq_iff p.profile_id k,
  eq_iff new.profile_id k,
)

pub find-put_conversation :
    (k j s : String) (rows : List Conversation)
    → find_conversation j (put_conversation k s rows)
      ≡ (if k == j then some s else find_conversation j rows)
unfolding find_conversation put_conversation
find-put_conversation k j s [] = refl
find-put_conversation k j s (c ∷ rows) = ground (
  arith,
  find-put_conversation k j s rows,
  eq_iff c.session_id k,
  eq_iff c.session_id j,
  eq_iff k j,
)

-- The risk profile of everybody but the sender, and the state of every other session, are as before.
pub record IsElsewhereSame (profile_id session_id : String) (before after : RiskDb) : Type 0 where
  pub profiles :
      (k : String)
      → (profile_id == k) ≡ false
      → find_profile k after.profiles ≡ find_profile k before.profiles
  pub conversations :
      (k : String)
      → (session_id == k) ≡ false
      → find_conversation k after.conversations ≡ find_conversation k before.conversations

pub profile-other :
    (new : Profile) (k : String) (db : RiskDb)
    → (new.profile_id == k) ≡ false
    → find_profile k (put_profile new db).1.profiles ≡ find_profile k db.profiles
unfolding put_profile
profile-other new k db ne = elim (Bool-cases (row_fits new)) [
  | inl e ↦ rw (e, find-upsert_profile new k db.profiles, ne) refl
  | inr e ↦ rw e refl
]

pub put_profile-conversations :
    (new : Profile) (db : RiskDb) → (put_profile new db).1.conversations ≡ db.conversations
unfolding put_profile
put_profile-conversations new db = ground arith

pub enqueue-profiles :
    (k : String) (s : Option String) (reason : String) (score : ℕ) (evidence : String) (db : RiskDb)
    → (enqueue_review k s reason score evidence db).1.profiles ≡ db.profiles
unfolding enqueue_review
enqueue-profiles k s reason score evidence db = ground arith

pub enqueue-conversations :
    (k : String) (s : Option String) (reason : String) (score : ℕ) (evidence : String) (db : RiskDb)
    → (enqueue_review k s reason score evidence db).1.conversations ≡ db.conversations
unfolding enqueue_review
enqueue-conversations k s reason score evidence db = ground arith

pub insert-profiles :
    (r : SignalRecord) (db : RiskDb) → (insert_signal_event r db).1.profiles ≡ db.profiles
unfolding insert_signal_event
insert-profiles r db = ground arith

pub insert-conversations :
    (r : SignalRecord) (db : RiskDb) → (insert_signal_event r db).1.conversations ≡ db.conversations
unfolding insert_signal_event
insert-conversations r db = ground arith

-- An ingest changes the risk profile of nobody but the sender, and the conversation state of no session
-- but the record's.
pub ingest_record-frame :
    (engine : Engine) (r : SignalRecord) (db : RiskDb)
    → IsElsewhereSame r.src_profile_id r.session_id db (ingest_record engine r db).1
ingest_record-frame engine r db =
    ingest_record-keeps (IsElsewhereSame r.src_profile_id r.session_id db) engine r
      (λ new e after h. record {
        profiles = λ k ne. profile-other new k after (rw e ne) ∙ h.profiles k ne;
        conversations = λ k ne. rw put_profile-conversations (h.conversations k ne);
      })
      (λ session reason score evidence after h. record {
        profiles = λ k ne. rw enqueue-profiles (h.profiles k ne);
        conversations = λ k ne. rw enqueue-conversations (h.conversations k ne);
      })
      (λ state after h. record {
        profiles = λ k ne. unfold put_conversation_state in h.profiles k ne;
        conversations = λ k ne.
            unfold put_conversation_state in
            rw (find-put_conversation r.session_id k state after.conversations, ne)
              (h.conversations k ne);
      })
      (λ after h. record {
        profiles = λ k ne. rw insert-profiles (h.profiles k ne);
        conversations = λ k ne. rw insert-conversations (h.conversations k ne);
      })
      db (record { profiles = λ k ne. refl; conversations = λ k ne. refl })
