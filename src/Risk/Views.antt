-- ===== src/Risk/Views.antt =====
-- What the service can see of its tables, in whichever order their rows stand, and the order of ingests.
use mathlib.Core.HLevel.{hedberg}
use mathlib.Core.Logic.{∥∥₁_elim}
use mathlib.Core.List.{Perm, Permᴰ, Pairwise, Pairwise-cons, mem-cons_self}
use mathlib.Core.List.Perm
use mathlib.Core.Quot
use mathlib.Core.Quot.{Quot, Quot-set}
use dost_review_api.Prelude.{
  ◌==◌, eq_iff, ◌≡◌, refl, sym, ap, subst, Bool, true, false, ◌∙◌, String, List, [], ◌∷◌,
  Bool-cases, inl, inr,
}
use dost_review_api.Risk.Store.{RiskDb, find_profile, find_conversation, has_open, has_event}
use dost_review_api.Risk.Replies.{Engine}
use dost_review_api.Risk.Service.{TierAnswer, tier_answer, read_tier}
use dost_review_api.Risk.Reports.{
  Report, ingest, subject_of, is_of, AreApart, Leaves, ingest-Leaves, ingest-IsLocal,
}
use dost_review_api.Risk.Local.{Alike}
use dost_review_api.Risk.Commute.{IsSame, apart_sym, ingests_commute}

abbrev pub RiskView : Type 0
RiskView = Quot IsSame

text_set : IsSet String
text_set = hedberg (λ s t. elim (Bool-cases (s == t)) [
  | inl same ↦ yes ((eq_iff s t).0 same)
  | inr other ↦ no (λ e. absurd (cc (other, (eq_iff s t).1 e)))
])

pub tier_set : IsSet TierAnswer
tier_set = hlevel (text_set)

-- On tables that look the same, an ingest answers the same and leaves tables that look the same.
kept_same :
    {X : Type 0} (f : RiskDb → X) (x y x' y' : RiskDb) (own : Bool)
    → f x ≡ f y
    → (own ≡ true → f x' ≡ f y')
    → (own ≡ false → (f x' ≡ f x) × (f y' ≡ f y))
    → f x' ≡ f y'
kept_same f x y x' y' true same mine other = mine refl
kept_same f x y x' y' false same mine other = (other refl).0 ∙ same ∙ sym (other refl).1

module _ (engine : Engine) (a : Report) (db db' : RiskDb) (same : IsSame db db') where
  abbrev next : RiskDb
  next = (ingest engine a db).1

  abbrev next' : RiskDb
  next' = (ingest engine a db').1

  own : Alike (subject_of a) (is_of a) (ingest engine a db) (ingest engine a db')
  own = ingest-IsLocal engine a db db' (record {
    profile = same.profile (subject_of a);
    opened = same.opened (subject_of a);
    conversation = λ s e. same.conversation s;
    events = λ s k e. same.events s k;
  })

  left : Leaves a db next
  left = ingest-Leaves engine a db

  left' : Leaves a db' next'
  left' = ingest-Leaves engine a db'

  kept-profile :
      {X : Type 0} (f : String → RiskDb → X) (k : String)
      → f k db ≡ f k db'
      → f (subject_of a) next ≡ f (subject_of a) next'
      → ((subject_of a == k) ≡ false → (f k next ≡ f k db) × (f k next' ≡ f k db'))
      → f k next ≡ f k next'
  kept-profile f k same mine other =
      kept_same (f k) db db' next next' (subject_of a == k) same
        (λ e. subst (λ (j : String). f j next ≡ f j next') ((eq_iff (subject_of a) k).0 e) mine)
        other

  pub ingest-IsSame : ((ingest engine a db).0 ≡ (ingest engine a db').0) × IsSame next next'
  ingest-IsSame = (
    own.0,
    record {
      profile = λ k.
          kept-profile (λ j d. find_profile j d.profiles) k (same.profile k) own.1.profile
            (λ ne. (left.profile k ne, left'.profile k ne));
      opened = λ k.
          kept-profile (λ j d. has_open j d.queue) k (same.opened k) own.1.opened
            (λ ne. (left.opened k ne, left'.opened k ne));
      conversation = λ s.
          kept_same (λ d. find_conversation s d.conversations) db db' next next' (is_of a s)
            (same.conversation s) (own.1.conversation s)
            (λ ne. (left.conversation s ne, left'.conversation s ne));
      events = λ s e.
          kept_same (λ d. has_event s e d.signal_events) db db' next next' (is_of a s)
            (same.events s e) (own.1.events s e) (λ ne. (left.events s e ne, left'.events s e ne));
    },
  )

-- An ingest and `read_tier`, on what can be seen.
unfoldable pub ingest_seen : Engine → Report → RiskView → RiskView
ingest_seen engine a =
    Quot.lift Quot-set (λ db. Quot.mk (ingest engine a db).1)
      (λ db db' same. Quot.sound (ingest-IsSame engine a db db' same).1)

unfoldable pub tier_seen : String → RiskView → TierAnswer
unfolding read_tier
tier_seen k = Quot.lift tier_set (read_tier k) (λ db db' same. ap (tier_answer k) (same.profile k))

unfoldable pub ingest_all : Engine → List Report → RiskDb → RiskDb
ingest_all engine [] db = db
ingest_all engine (a ∷ reports) db = ingest_all engine reports (ingest engine a db).1

all_seen : Engine → List Report → RiskView → RiskView
all_seen engine [] v = v
all_seen engine (a ∷ reports) v = all_seen engine reports (ingest_seen engine a v)

all-seen :
    (engine : Engine) (reports : List Report) (db : RiskDb)
    → all_seen engine reports (Quot.mk db) ≡ Quot.mk (ingest_all engine reports db)
unfolding all_seen ingest_all ingest_seen
all-seen engine [] db = refl
all-seen engine (a ∷ reports) db = all-seen engine reports (ingest engine a db).1

seen_commute :
    (engine : Engine) (a b : Report) (v : RiskView)
    → AreApart a b
    → ingest_seen engine b (ingest_seen engine a v) ≡ ingest_seen engine a (ingest_seen engine b v)
unfolding ingest_seen
seen_commute engine a b v apart =
    Quot.ind
      (λ (q : RiskView).
        Quot-set {r = IsSame} (ingest_seen engine b (ingest_seen engine a q))
          (ingest_seen engine a (ingest_seen engine b q)))
      (λ db.
        Quot.sound {a = (ingest engine b (ingest engine a db).1).1}
          {b = (ingest engine a (ingest engine b db).1).1}
          (ingests_commute engine engine a b db apart).2)
      v

pub apart-prop : (a b : Report) → IsProp (AreApart a b)
apart-prop a b = hlevel

any_order :
    (engine : Engine) {some_order other_order : List Report}
    → Permᴰ some_order other_order
    → Pairwise AreApart some_order
    → (v : RiskView) → all_seen engine some_order v ≡ all_seen engine other_order v
unfolding all_seen
any_order engine Permᴰ.nil apart v = refl
any_order engine (Permᴰ.cons {a} {b} {l₁} {l₂} e d) apart v =
    any_order engine d (Pairwise-cons.0 apart).1 (ingest_seen engine a v)
    ∙ ap (λ (c : Report). all_seen engine l₂ (ingest_seen engine c v)) e
any_order engine (Permᴰ.swap {a} {b} {a'} {b'} {l} e f) apart v =
    ap (all_seen engine l) (seen_commute engine a b v ((Pairwise-cons.0 apart).0 b mem-cons_self))
    ∙ ap (λ (c : Report). all_seen engine l (ingest_seen engine a (ingest_seen engine c v))) f
    ∙ ap (λ (c : Report). all_seen engine l (ingest_seen engine c (ingest_seen engine a' v))) e
any_order engine (Permᴰ.trans {l₁} {l₂} {l₃} d d') apart v =
    any_order engine d apart v
    ∙ any_order engine d' (Perm.pairwise apart-prop apart_sym ∣ d ∣₁ apart) v

-- Reports of which any two are about different profiles and of different sessions may be ingested in any
-- order: the tables look the same in the end to every statement of the service.
pub ingest_all-Perm :
    (engine : Engine) (reports reordered : List Report) (db : RiskDb)
    → Perm reports reordered
    → Pairwise AreApart reports
    → ◌≡◌ {A = RiskView}
        (Quot.mk (ingest_all engine reports db))
        (Quot.mk (ingest_all engine reordered db))
ingest_all-Perm engine reports reordered db perm apart =
    ∥∥₁_elim perm (Quot-set {r = IsSame} _ _) (λ d.
      sym (all-seen engine reports db)
      ∙ any_order engine d apart (Quot.mk db)
      ∙ all-seen engine reordered db)
