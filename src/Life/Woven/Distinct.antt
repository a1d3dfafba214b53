-- ===== src/Life/Woven/Distinct.antt =====
-- A claim puts each review into one group only.
use dost_review_api.Prelude.{
  ℕ, ◌+◌, ◌≤◌, ◌==◌, eq_iff, ◌≡◌, refl, sym, ap, ◌∙◌, Bool, true, none, List, [], ◌∷◌, ◌++◌, arith,
  keep, count, Bool-cases, inl, inr,
}
use dost_review_api.Models.{Uuid}
use dost_review_api.Review.{Row, find}
use dost_review_api.Review.Laws.{HasUniqueIds}
use dost_review_api.Batch.Database.{elem}
use dost_review_api.Batch.Claim.{Group, add_to_group, group_onto}
use dost_review_api.Batch.Engine.{ids_of}
use dost_review_api.Batch.Held.{group_ids}

-- How often an id is on a list.
abbrev pub times : Uuid → List Uuid → ℕ
times k = count (λ j. j == k)

pub times-append : (k : Uuid) (xs ys : List Uuid) → times k (xs ++ ys) ≡ times k xs + times k ys
times-append k [] ys = omega arith
times-append k (x ∷ xs) ys = ground (arith, times-append k xs ys)

times-snoc :
    (k : Uuid) (r : Row) (rows : List Row)
    → times k (ids_of (rows ++ r ∷ [])) ≡ times k (ids_of rows) + times k (r.id ∷ [])
times-snoc k r [] = omega arith
times-snoc k r (s ∷ rows) = ground (arith, times-snoc k r rows)

times-add :
    (k : Uuid) (r : Row) (groups : List Group)
    → times k (group_ids (add_to_group r groups)) ≡ times k (r.id ∷ []) + times k (group_ids groups)
unfolding add_to_group
times-add k r [] = omega arith
times-add k r ((t, rows) ∷ groups) = ground (
  arith,
  times-add k r groups,
  times-append k (ids_of rows) (group_ids groups),
  times-append k (ids_of rows) (group_ids (add_to_group r groups)),
  times-append k (ids_of (rows ++ r ∷ [])) (group_ids groups),
  times-snoc k r rows,
)

pub times-onto :
    (k : Uuid) (rows : List Row) (groups : List Group)
    → times k (group_ids (group_onto groups rows))
      ≡ times k (ids_of rows) + times k (group_ids groups)
unfolding group_onto
times-onto k [] groups = omega arith
times-onto k (r ∷ rows) groups =
    ground (arith, times-onto k rows (add_to_group r groups), times-add k r groups)

times-absent : (k : Uuid) (rows : List Row) → find k rows ≡ none → times k (ids_of rows) ≡ 0
unfolding find
times-absent k [] h = refl
times-absent k (r ∷ rows) h = ground (arith, times-absent k rows)

pub times-HasUniqueIds :
    (k : Uuid) (rows : List Row) → HasUniqueIds rows → times k (ids_of rows) ≤ 1
times-HasUniqueIds k [] u = omega arith
times-HasUniqueIds k (r ∷ rows) u = elim (Bool-cases (r.id == k)) [
  | inl same ↦
      let key : r.id ≡ k = (eq_iff r.id k).0 same in
      let gone : find k rows ≡ none = ap (λ (j : Uuid). find j rows) (sym key) ∙ u.0 in
      rw same (omega (arith, times-absent k rows gone))
  | inr other ↦ rw other (times-HasUniqueIds k rows u.1)
]

pub times-keep :
    (k : Uuid) (p : Row → Bool) (rows : List Row)
    → times k (ids_of (keep p rows)) ≤ times k (ids_of rows)
times-keep k p [] = omega arith
times-keep k p (r ∷ rows) = ground (arith, times-keep k p rows)

-- An id that is on a list is not on the rest of it, if it is on the whole once.
pub times-elem : (k : Uuid) (xs : List Uuid) → elem k xs ≡ true → 1 ≤ times k xs
unfolding elem
times-elem k [] h = cc
times-elem k (x ∷ xs) h = ground (arith, times-elem k xs)
