-- ===== src/Risk/Agrees.antt =====
-- What it means that an answer agrees with the tables, and what the writes of a fold do to it.
use dost_review_api.Prelude.{
  ◌⊎◌, ◌<◌, inl, inr, eq_iff, ℕ, true, eq_refl, ◌≡◌, refl, String, Option, none, some, arith,
  Bool-cases,
}
use dost_review_api.Risk.Store.{
  has_open, enqueue_review, Profile, RiskDb, Result, ok, err, Action, raise, ◌>>=◌, find_profile,
  get_profile, put_profile, row_fits,
}
use dost_review_api.Risk.Frame.{find-upsert_profile, enqueue-profiles}
use dost_review_api.Risk.Replies.{
  Folded, Response, duplicate, unfolded, folded, Answered, answered, engine_error,
}
use dost_review_api.Risk.Service.{
  queue_at, tier_of, profile_row, enqueue_high, answer_tier, tier_answer, read_tier,
}

-- The score is below the one from which a human looks, or the profile has an OPEN row in the queue.
abbrev pub IsQueued : String → ℕ → RiskDb → Type 0
IsQueued k score db = (score < queue_at) ⊎ (has_open k db.queue ≡ true)

-- The response tells what a reader of the tier of `k` is shown; a score that it tells is one that the
-- queue has where it is high. A duplicate tells nothing.
unfoldable pub Agrees : String → Answered → RiskDb → Type 0
Agrees k (answered duplicate) db = Unit {0}
Agrees k (answered (unfolded tier)) db = (read_tier k db).risk_tier ≡ tier
Agrees k (answered (folded tier score across)) db =
    (read_tier k db
      ≡ record { profile_id = k; risk_tier = tier; risk_score = score; repeated_across = across })
    × IsQueued k score db
Agrees k (engine_error message) db = Unit {0}

unfoldable pub AgreesIf : String → Result Response × RiskDb → Type 0
AgreesIf k (ok r, db) = Agrees k (answered r) db
AgreesIf k (err e, db) = Unit {0}

-- The second action starts from what the first one has made, where that succeeds.
module _ (k : String) {A : Type 0} (P : RiskDb → Type 0) (next : A → Action Response) where
  bound-AgreesIf :
      (x : Result A × RiskDb)
      → ((a : A) → x.0 ≡ ok a → P x.1)
      → ((a : A) (db : RiskDb) → P db → AgreesIf k (next a db))
      → AgreesIf k (elim x.0 [ ok a ↦ next a x.1 | err e ↦ raise e x.1 ])
  unfolding AgreesIf
  bound-AgreesIf (ok a, after) p h = h a after (p a refl)
  bound-AgreesIf (err e, after) p h = tt

  pub bind-AgreesIf :
      (m : Action A) (db : RiskDb)
      → ((a : A) → (m db).0 ≡ ok a → P (m db).1)
      → ((a : A) (db : RiskDb) → P db → AgreesIf k (next a db))
      → AgreesIf k ((m >>= next) db)
  bind-AgreesIf m db = bound-AgreesIf (m db)

-- No condition.
abbrev pub Anything : RiskDb → Type 0
Anything db = Unit {0}

tier-of-answer : (k : String) (p : Option Profile) → (tier_answer k p).risk_tier ≡ tier_of p
unfolding tier_answer tier_of
tier-of-answer k none = refl
tier-of-answer k (some p) = refl

pub answer_tier-Agrees : (k : String) (db : RiskDb) → AgreesIf k (answer_tier k db)
unfolding AgreesIf Agrees answer_tier get_profile read_tier
answer_tier-Agrees k db = tier-of-answer k (find_profile k db.profiles)

enqueue_high-profiles :
    (k : String) (session : Option String) (reason : String) (score : ℕ) (evidence : String)
    (db : RiskDb)
    → (enqueue_high k session reason score evidence db).1.profiles ≡ db.profiles
unfolding enqueue_high
enqueue_high-profiles k session reason score evidence db =
    ground (arith, enqueue-profiles k session reason score evidence db)

-- A reader of the tier of `k` is shown the fold.
abbrev pub Shows : String → Folded → RiskDb → Type 0
Shows k f db = read_tier k db ≡ record {
  profile_id = k;
  risk_tier = f.risk_tier;
  risk_score = f.risk_score;
  repeated_across = f.repeated_across;
}

pub put-Shows :
    (k : String) (account : Option String) (f : Folded) (db : RiskDb) (u : Unit {0})
    → (put_profile (profile_row k account f) db).0 ≡ ok u
    → Shows k f (put_profile (profile_row k account f) db).1
unfolding put_profile read_tier tier_answer
put-Shows k account f db u h = elim (Bool-cases (row_fits (profile_row k account f))) [
  | inl e ↦ rw (e, find-upsert_profile (profile_row k account f) k db.profiles, eq_refl k) refl
  | inr e ↦ ground (arith, e)
]

pub enqueue-Shows :
    (k : String) (session : Option String) (reason : String) (score : ℕ) (evidence : String)
    (f : Folded) (db : RiskDb)
    → Shows k f db
    → Shows k f (enqueue_high k session reason score evidence db).1
unfolding read_tier
enqueue-Shows k session reason score evidence f db h = rw enqueue_high-profiles h

pub enqueue_high-IsQueued :
    (k : String) (session : Option String) (reason : String) (score : ℕ) (evidence : String)
    (db : RiskDb)
    → IsQueued k score (enqueue_high k session reason score evidence db).1
unfolding enqueue_high enqueue_review has_open
enqueue_high-IsQueued k session reason score evidence db = ground (arith, eq_iff k k)
