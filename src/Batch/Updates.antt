-- ===== src/Batch/Updates.antt =====
-- What the UPDATEs of a run do to predicates on the rows of `review`.
use dost_review_api.Prelude.{
  ◌==◌, eq_iff, ◌≡◌, refl, ap, true, Bool, some, Bool-cases, inl, inr, List, [], ◌∷◌, ◌++◌, arith,
  All, if◌then◌else◌,
}
use dost_review_api.Models.{Uuid}
use dost_review_api.Review.{Row, find, update_where}
use dost_review_api.Review.Laws.{HasUniqueIds}
use dost_review_api.Batch.Database.{elem}

pub All-update :
    (P Q : Row → Type 0) (p : Row → Bool) (f : Row → Row) (rows : List Row)
    → ((r : Row) → P r → Q (if p r then f r else r))
    → All P rows
    → All Q (update_where p f rows)
unfolding update_where
All-update P Q p f [] h a = tt
All-update P Q p f (r ∷ rows) h a = (h r a.0, All-update P Q p f rows h a.1)

pub All-mono :
    (P Q : Row → Type 0) (rows : List Row) → ((r : Row) → P r → Q r) → All P rows → All Q rows
All-mono P Q [] h a = tt
All-mono P Q (r ∷ rows) h a = (h r a.0, All-mono P Q rows h a.1)

pub elem-append :
    (k : Uuid) (xs ys : List Uuid) → elem k (xs ++ ys) ≡ (if elem k xs then true else elem k ys)
unfolding elem
elem-append k [] ys = refl
elem-append k (x ∷ xs) ys = ground (arith, elem-append k xs ys)

pub All-both :
    (P Q : Row → Type 0) (rows : List Row) → All P rows → All Q rows → All (λ r. P r × Q r) rows
All-both P Q [] a b = tt
All-both P Q (r ∷ rows) a b = ((a.0, b.0), All-both P Q rows a.1 b.1)

pub All-found : (rows : List Row) → HasUniqueIds rows → All (λ r. find r.id rows ≡ some r) rows
unfolding find
All-found [] u = tt
All-found (r ∷ rows) u = (
  ground (arith, eq_iff r.id r.id),
  All-mono (λ s. find s.id rows ≡ some s) (λ s. find s.id (r ∷ rows) ≡ some s) rows
      (λ s e. elim (Bool-cases (r.id == s.id)) [
        | inl same ↦
            let key : r.id ≡ s.id = (eq_iff r.id s.id).0 same in
            absurd (cc (e, u.0, ap (λ (j : Uuid). find j rows) key))
        | inr other ↦ rw other e
      ])
      (All-found rows u.1),
)
