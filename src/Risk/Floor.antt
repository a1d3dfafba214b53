-- ===== src/Risk/Floor.antt =====
-- What the mapping lets through to the engine: the signals, the milestones, the derived tags.
use dost_review_api.Prelude.{
  Bool, true, false, not, ◌==◌, eq_iff, eq_refl, ◌≡◌, ◌⊎◌, inl, inr, String, some, List, [], ◌∷◌,
  arith, keep, Bool-cases, Option-cases,
}
use dost_review_api.Risk.Records.{stage, member}
use dost_review_api.Risk.Mapping.{
  milestones_of, milestone_ladder, milestone_stages, counterparty, least, least_of,
}

-- The milestones of an event claim no more than the deal stage does, and a rung of the ladder brings the
-- agreed price with it.
pub record IsLadder (s : String) (milestones : List String) : Type 0 where
  pub sound : (m : String) → member m milestones ≡ true → (m ≡ "price_agreed") ⊎ (m ≡ s)
  pub implied : member s milestone_ladder ≡ true → member "price_agreed" milestones ≡ true
  pub itself : member s milestone_ladder ≡ true → member s milestones ≡ true

two_sound :
    (s m : String) → member m ("price_agreed" ∷ s ∷ []) ≡ true → (m ≡ "price_agreed") ⊎ (m ≡ s)
unfolding member
two_sound s m h = ground (arith, eq_iff "price_agreed" m, eq_iff s m)

ladder-stage : (s : String) → member s milestone_ladder ≡ true → member s milestone_stages ≡ true
unfolding member
ladder-stage s h = ground arith

-- No deal stage makes a milestone other than itself and the agreed price, so a ledger credit is never
-- invented; and every rung of the ladder is recorded together with the agreed price.
pub milestones-IsLadder :
    (s : String) (milestones : List String)
    → milestones_of (stage s) ≡ some milestones
    → IsLadder s milestones
unfolding milestones_of
milestones-IsLadder s milestones h = record {
  sound = λ m e. unfold member in ground (arith, eq_iff "price_agreed" m, eq_iff s m, h, e);
  implied =
      λ e. unfold member in ground (arith, eq_iff "price_agreed" s, eq_iff s "price_agreed", h, e);
  itself = λ e. unfold member in ground (arith, eq_refl s, h, e);
}

member-keep :
    (p : String → Bool) (c : String) (names : List String)
    → member c (keep p names) ≡ true
    → (member c names ≡ true) × (p c ≡ true)
unfolding member
member-keep p c [] h = cc
member-keep p c (j ∷ names) h = elim (Bool-cases (j == c)) [
  | inl e ↦ ground (arith, member-keep p c names, eq_iff j c, h)
  | inr e ↦ ground (arith, member-keep p c names, h)
]

least-member : (c : String) (names : List String) → least names ≡ some c → member c names ≡ true
unfolding member least least_of
least-member c [] h = cc
least-member c (a ∷ names) h =
    ground (arith, least-member c names, eq_iff a c, Option-cases (least names))

-- The counterparty of a derived tag, if there is one, is one of the participants, and not the sender.
pub counterparty-IsOther :
    (sender c : String) (participants : List String)
    → counterparty sender participants ≡ some c
    → (member c participants ≡ true) × ((c == sender) ≡ false)
unfolding counterparty
counterparty-IsOther sender c participants h = ground (
  arith,
  member-keep (λ p. not (p == sender)) c participants,
  least-member c (keep (λ p. not (p == sender)) participants),
)
