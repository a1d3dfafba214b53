-- ===== src/Risk/Commute.antt =====
-- Ingests about different profiles and of different sessions do not see each other.
use dost_review_api.Prelude.{
  ◌==◌, eq_iff, ◌≡◌, refl, sym, subst, Bool, true, false, ◌∙◌, String, arith, Bool-cases, inl, inr,
}
use dost_review_api.Risk.Store.{RiskDb, find_profile, find_conversation, has_open, has_event}
use dost_review_api.Risk.Replies.{Engine}
use dost_review_api.Risk.Local.{Alike}
use dost_review_api.Risk.Reports.{
  Report, ingest, subject_of, is_of, AreApart, Leaves, ingest-Leaves, ingest-IsLocal,
}

-- What every statement of the service reads is the same; the order of the rows is not.
pub record IsSame (db db' : RiskDb) : Type 0 where
  pub profile : (k : String) → find_profile k db.profiles ≡ find_profile k db'.profiles
  pub opened : (k : String) → has_open k db.queue ≡ has_open k db'.queue
  pub conversation :
      (s : String) → find_conversation s db.conversations ≡ find_conversation s db'.conversations
  pub events : (s e : String) → has_event s e db.signal_events ≡ has_event s e db'.signal_events

pub apart_sym : (a b : Report) → AreApart a b → AreApart b a
apart_sym a b apart = record {
  profiles = ground (
    arith,
    apart.profiles,
    eq_iff (subject_of a) (subject_of b),
    eq_iff (subject_of b) (subject_of a),
  );
  sessions = λ s of. elim (Bool-cases (is_of a s)) [
    | inl own ↦ absurd (cc (of, apart.sessions s own))
    | inr other ↦ other
  ];
}

module _ (db : RiskDb) (left right : Engine) (a b : Report) (apart : AreApart a b) where
  -- The first ingest does not see the second.
  pub unseen :
      Alike (subject_of a) (is_of a) (ingest left a db) (ingest left a (ingest right b db).1)
  unseen =
      let leaves : Leaves b db (ingest right b db).1 = ingest-Leaves right b db in
      ingest-IsLocal left a db (ingest right b db).1 (record {
        profile = sym (leaves.profile (subject_of a) (apart_sym a b apart).profiles);
        opened = sym (leaves.opened (subject_of a) (apart_sym a b apart).profiles);
        conversation = λ s own. sym (leaves.conversation s (apart.sessions s own));
        events = λ s e own. sym (leaves.events s e (apart.sessions s own));
      })

-- One thing that is read, in either order of the two.
met :
    {X : Type 0} (f : RiskDb → X) (start a b ab ba : RiskDb) (of_a of_b : Bool)
    → (of_a ≡ true → of_b ≡ false)
    → (of_a ≡ true → f a ≡ f ba)
    → (of_b ≡ true → f b ≡ f ab)
    → (of_a ≡ false → (f a ≡ f start) × (f ba ≡ f b))
    → (of_b ≡ false → (f b ≡ f start) × (f ab ≡ f a))
    → f ab ≡ f ba
met f start a b ab ba true true never own_a own_b other_a other_b = absurd (cc (never refl))
met f start a b ab ba true false never own_a own_b other_a other_b = (other_b refl).1 ∙ own_a refl
met f start a b ab ba false true never own_a own_b other_a other_b =
    sym (own_b refl) ∙ sym (other_a refl).1
met f start a b ab ba false false never own_a own_b other_a other_b =
    (other_b refl).1 ∙ (other_a refl).0 ∙ sym (other_b refl).0 ∙ sym (other_a refl).1

module _ (left right : Engine) (a b : Report) (db : RiskDb) (apart : AreApart a b) where
  abbrev after_a : RiskDb
  after_a = (ingest left a db).1

  abbrev after_b : RiskDb
  after_b = (ingest right b db).1

  abbrev after_ab : RiskDb
  after_ab = (ingest right b after_a).1

  abbrev after_ba : RiskDb
  after_ba = (ingest left a after_b).1

  own_a : Alike (subject_of a) (is_of a) (ingest left a db) (ingest left a after_b)
  own_a = unseen db left right a b apart

  own_b : Alike (subject_of b) (is_of b) (ingest right b db) (ingest right b after_a)
  own_b = unseen db right left b a (apart_sym a b apart)

  never_both : (k : String) → (subject_of a == k) ≡ true → (subject_of b == k) ≡ false
  never_both k e = ground (
    arith,
    apart.profiles,
    eq_iff (subject_of a) k,
    eq_iff (subject_of b) k,
    eq_iff (subject_of a) (subject_of b),
  )

  -- What is read of one profile, and what is read of one session.
  met-profile :
      {X : Type 0} (f : String → RiskDb → X) (k : String)
      → f (subject_of a) after_a ≡ f (subject_of a) after_ba
      → f (subject_of b) after_b ≡ f (subject_of b) after_ab
      → ((c : Report) (before after : RiskDb)
          → Leaves c before after
          → (subject_of c == k) ≡ false
          → f k after ≡ f k before)
      → f k after_ab ≡ f k after_ba
  met-profile f k mine yours leaves =
      met (f k) db after_a after_b after_ab after_ba (subject_of a == k) (subject_of b == k)
        (never_both k)
        (λ e.
          subst (λ (j : String). f j after_a ≡ f j after_ba) ((eq_iff (subject_of a) k).0 e) mine)
        (λ e.
          subst (λ (j : String). f j after_b ≡ f j after_ab) ((eq_iff (subject_of b) k).0 e) yours)
        (λ e. (
          leaves a db after_a (ingest-Leaves left a db) e,
          leaves a after_b after_ba (ingest-Leaves left a after_b) e,
        ))
        (λ e. (
          leaves b db after_b (ingest-Leaves right b db) e,
          leaves b after_a after_ab (ingest-Leaves right b after_a) e,
        ))

  met-session :
      {X : Type 0} (f : RiskDb → X) (s : String)
      → (is_of a s ≡ true → f after_a ≡ f after_ba)
      → (is_of b s ≡ true → f after_b ≡ f after_ab)
      → ((c : Report) (before after : RiskDb)
          → Leaves c before after
          → is_of c s ≡ false
          → f after ≡ f before)
      → f after_ab ≡ f after_ba
  met-session f s mine yours leaves =
      met f db after_a after_b after_ab after_ba (is_of a s) (is_of b s) (apart.sessions s) mine
        yours
        (λ e. (
          leaves a db after_a (ingest-Leaves left a db) e,
          leaves a after_b after_ba (ingest-Leaves left a after_b) e,
        ))
        (λ e. (
          leaves b db after_b (ingest-Leaves right b db) e,
          leaves b after_a after_ab (ingest-Leaves right b after_a) e,
        ))

  pub both_orders : IsSame after_ab after_ba
  both_orders = record {
    profile = λ k.
        met-profile (λ j d. find_profile j d.profiles) k own_a.1.profile own_b.1.profile
          (λ c before after h. h.profile k);
    opened = λ k.
        met-profile (λ j d. has_open j d.queue) k own_a.1.opened own_b.1.opened
          (λ c before after h. h.opened k);
    conversation = λ s.
        met-session (λ d. find_conversation s d.conversations) s (own_a.1.conversation s)
          (own_b.1.conversation s) (λ c before after h. h.conversation s);
    events = λ s e.
        met-session (λ d. has_event s e d.signal_events) s (own_a.1.events s e) (own_b.1.events s e)
          (λ c before after h. h.events s e);
  }

-- Two ingests about different profiles, which are not of the same session, commute: each gives the answer
-- that it gives by itself, and all that the service ever reads of the tables, the rows of profiles, the
-- states of conversations, which events are stored and who has an OPEN row, is the same in either order,
-- whichever engines they meet and however they fail.
pub ingests_commute :
    (left right : Engine) (a b : Report) (db : RiskDb)
    → AreApart a b
    → ((ingest left a (ingest right b db).1).0 ≡ (ingest left a db).0)
      × ((ingest right b (ingest left a db).1).0 ≡ (ingest right b db).0)
      × IsSame (ingest right b (ingest left a db).1).1 (ingest left a (ingest right b db).1).1
ingests_commute left right a b db apart = (
  sym (own_a left right a b db apart).0,
  sym (own_b left right a b db apart).0,
  both_orders left right a b db apart,
)
