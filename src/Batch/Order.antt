-- ===== src/Batch/Order.antt =====
-- The inner SELECT of the claim: it takes the oldest claimable reviews, and only those.
use mathlib.Core.List.{Perm}
use mathlib.Core.List.Perm
use Prim.Native.Nat.{min}
use dost_review_api.Prelude.{
  ℕ, zero, suc, ◌≤◌, ◌≡◌, refl, ap, Bool, List, [], ◌∷◌, ◌++◌, arith, keep, count, take, length,
  leb, All, Bool-cases, inl, inr,
}
use dost_review_api.Models.{Uuid, Instant}
use dost_review_api.Review.{Row}
use dost_review_api.Batch.Claim.{insert_by_time, sort_by_time, is_claimable, chosen}

insert-perm : (r : Row) (rows : List Row) → Perm (insert_by_time r rows) (r ∷ rows)
unfolding insert_by_time
insert-perm r [] = Perm.refl (r ∷ [])
insert-perm r (s ∷ rows) = elim (Bool-cases (leb s.received_at r.received_at)) [
  | inl later ↦ rw later (Perm.trans (Perm.cons s (insert-perm r rows)) (Perm.swap r s rows))
  | inr earlier ↦ rw earlier (Perm.refl (r ∷ s ∷ rows))
]

sort-perm : (rows : List Row) → Perm (sort_by_time rows) rows
unfolding sort_by_time
sort-perm [] = Perm.refl []
sort-perm (r ∷ rows) = Perm.trans (insert-perm r (sort_by_time rows)) (Perm.cons r (sort-perm rows))

-- Each row is at most as late as all behind it.
abbrev IsSorted : List Row → Type 0
IsSorted [] = Unit
IsSorted (r ∷ rows) = All (λ s. r.received_at ≤ s.received_at) rows × IsSorted rows

insert-All :
    (P : Row → Type 0) (r : Row) (rows : List Row)
    → P r
    → All P rows
    → All P (insert_by_time r rows)
unfolding insert_by_time
insert-All P r [] h a = (h, tt)
insert-All P r (s ∷ rows) h a = elim (Bool-cases (leb s.received_at r.received_at)) [
  | inl later ↦ rw later (a.0, insert-All P r rows h a.1)
  | inr earlier ↦ rw earlier (h, a)
]

All-later :
    (a b : Instant) (rows : List Row)
    → a ≤ b
    → All (λ s. b ≤ s.received_at) rows
    → All (λ s. a ≤ s.received_at) rows
All-later a b [] h all = tt
All-later a b (s ∷ rows) h all = (omega arith, All-later a b rows h all.1)

insert-IsSorted : (r : Row) (rows : List Row) → IsSorted rows → IsSorted (insert_by_time r rows)
unfolding insert_by_time
insert-IsSorted r [] h = (tt, tt)
insert-IsSorted r (s ∷ rows) h = elim (Bool-cases (leb s.received_at r.received_at)) [
  | inl later ↦ rw later (
    insert-All (λ t. s.received_at ≤ t.received_at) r rows (ground arith) h.0,
    insert-IsSorted r rows h.1,
  )
  | inr earlier ↦ rw earlier (
      let le : r.received_at ≤ s.received_at = ground arith in
      ((le, All-later r.received_at s.received_at rows le h.0), h))
]

sort-IsSorted : (rows : List Row) → IsSorted (sort_by_time rows)
unfolding sort_by_time
sort-IsSorted [] = tt
sort-IsSorted (r ∷ rows) = insert-IsSorted r (sort_by_time rows) (sort-IsSorted rows)

drop : ℕ → List Row → List Row
drop zero rows = rows
drop (suc n) [] = []
drop (suc n) (r ∷ rows) = drop n rows

take-append-drop : (n : ℕ) (rows : List Row) → take n rows ++ drop n rows ≡ rows
unfolding drop
take-append-drop zero rows = refl
take-append-drop (suc n) [] = refl
take-append-drop (suc n) (r ∷ rows) = ap (λ (t : List Row). r ∷ t) (take-append-drop n rows)

drop-All : (P : Row → Type 0) (n : ℕ) (rows : List Row) → All P rows → All P (drop n rows)
unfolding drop
drop-All P zero rows a = a
drop-All P (suc n) [] a = tt
drop-All P (suc n) (r ∷ rows) a = drop-All P n rows a.1

take-le-drop :
    (n : ℕ) (rows : List Row)
    → IsSorted rows
    → All (λ r. All (λ s. r.received_at ≤ s.received_at) (drop n rows)) (take n rows)
unfolding drop
take-le-drop zero rows h = tt
take-le-drop (suc n) [] h = tt
take-le-drop (suc n) (r ∷ rows) h =
    (drop-All (λ s. r.received_at ≤ s.received_at) n rows h.0, take-le-drop n rows h.1)

length-take : (n : ℕ) (rows : List Row) → length (take n rows) ≡ min n (length rows)
length-take zero rows = omega arith
length-take (suc n) [] = omega arith
length-take (suc n) (r ∷ rows) = omega (arith, length-take n rows)

length-insert : (r : Row) (rows : List Row) → length (insert_by_time r rows) ≡ suc (length rows)
unfolding insert_by_time
length-insert r [] = refl
length-insert r (s ∷ rows) = ground (arith, length-insert r rows)

pub length-sort : (rows : List Row) → length (sort_by_time rows) ≡ length rows
unfolding sort_by_time
length-sort [] = refl
length-sort (r ∷ rows) = omega (arith, length-insert r (sort_by_time rows), length-sort rows)

length-keep : (p : Row → Bool) (rows : List Row) → length (keep p rows) ≡ count p rows
length-keep p [] = refl
length-keep p (r ∷ rows) = ground (arith, length-keep p rows)

-- The claim chooses `limit` of the claimable reviews, or all if there are fewer, and each of them was
-- received no later than every claimable review that is left.
pub chosen_oldest :
    (locked : Uuid → Bool) (limit : ℕ) (rows : List Row)
    → (length (chosen locked limit rows) ≡ min limit (count (is_claimable locked) rows))
      × ((left : List Row) × Perm
            (chosen locked limit rows ++ left)
            (keep (is_claimable locked) rows)
          × All (λ r. All (λ s. r.received_at ≤ s.received_at) left) (chosen locked limit rows))
unfolding chosen
chosen_oldest locked limit rows =
    let able = keep (is_claimable locked) rows in
    let sorted = sort_by_time able in
    (
      rw (length-take, length-sort, length-keep),
      (
        drop limit sorted,
        rw (take-append-drop limit sorted) (sort-perm able),
        take-le-drop limit sorted (sort-IsSorted able),
      ),
    )
