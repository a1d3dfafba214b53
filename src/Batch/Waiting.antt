-- ===== src/Batch/Waiting.antt =====
-- The reviews that wait: a claim with enough room takes them all, and counting them.
use dost_review_api.Prelude.{
  ℕ, zero, suc, ◌≤◌, ◌==◌, eq_iff, ◌≡◌, refl, sym, ap, ◌∙◌, Bool, true, false, Option, none, some,
  List, [], ◌∷◌, arith, keep, count, take, length, Bool-cases, inl, inr,
}
use dost_review_api.Models.{Uuid}
use dost_review_api.Review.{Row, is_gated, find}
use dost_review_api.Review.Laws.{HasUniqueIds}
use dost_review_api.Batch.Database.{elem}
use dost_review_api.Batch.Claim.{sort_by_time, is_claimable, chosen, claimed_ids}
use dost_review_api.Batch.Engine.{ids_of}
use dost_review_api.Batch.Chosen.{elem-sort}
use dost_review_api.Batch.Order.{length-sort}
use dost_review_api.Batch.Ids.{unique-ids}

take-all : (n : ℕ) (rows : List Row) → length rows ≤ n → take n rows ≡ rows
take-all zero [] h = refl
take-all (suc n) [] h = refl
take-all zero (r ∷ rows) h = absurd (omega arith)
take-all (suc n) (r ∷ rows) h = ap (λ (t : List Row). r ∷ t) (take-all n rows (omega (arith, h)))

length-keep : (p : Row → Bool) (rows : List Row) → length (keep p rows) ≡ count p rows
length-keep p [] = refl
length-keep p (r ∷ rows) = ground (arith, length-keep p rows)

elem-keep_found :
    (p : Row → Bool) (k : Uuid) (rows : List Row) (r : Row)
    → find k rows ≡ some r
    → p r ≡ true
    → elem k (ids_of (keep p rows)) ≡ true
unfolding elem find
elem-keep_found p k [] r e h = cc
elem-keep_found p k (s ∷ rows) r e h = elim (Bool-cases (s.id == k)) [
  | inl same ↦ ground (arith, same, e, h)
  | inr other ↦ ground (arith, other, elem-keep_found p k rows r)
]

abbrev pub waits : Row → Bool
waits r = is_gated r.status

count-claimable :
    (locked : Uuid → Bool) (rows : List Row)
    → ((k : Uuid) → locked k ≡ false)
    → count (is_claimable locked) rows ≡ count waits rows
unfolding is_claimable
count-claimable locked [] free = refl
count-claimable locked (r ∷ rows) free = ground (arith, free r.id, count-claimable locked rows free)

-- With no row locked and room for all, a claim takes every waiting review.
pub claims-all :
    (locked : Uuid → Bool) (n : ℕ) (k : Uuid) (rows : List Row) (r : Row)
    → ((j : Uuid) → locked j ≡ false)
    → count waits rows ≤ n
    → find k rows ≡ some r
    → waits r ≡ true
    → elem k (claimed_ids locked n rows) ≡ true
unfolding claimed_ids chosen
claims-all locked n k rows r free room e h =
    let waiting : List Row = keep (is_claimable locked) rows in
    let fits : length (sort_by_time waiting) ≤ n = omega (
      arith,
      length-sort waiting,
      length-keep (is_claimable locked) rows,
      count-claimable locked rows free,
      room,
    ) in
    rw (take-all n (sort_by_time waiting) fits, elem-sort)
      (elem-keep_found (is_claimable locked) k rows r e
        (unfold is_claimable in ground (arith, free r.id)))

abbrev waits_at : Option Row → Bool
waits_at none = false
waits_at (some r) = waits r

find-here : (k : Uuid) (s : Row) (rows : List Row) → s.id ≡ k → find k (s ∷ rows) ≡ some s
unfolding find
find-here k s rows e = rw ((eq_iff s.id k).1 e) refl

find-there :
    (k : Uuid) (s : Row) (rows : List Row) → (s.id == k) ≡ false → find k (s ∷ rows) ≡ find k rows
unfolding find
find-there k s rows e = rw e refl

-- Only what waited before waits after.
abbrev pub WaitedBefore : List Row → List Row → Type 0
WaitedBefore rows after =
    (k : Uuid) (s : Row) → find k after ≡ some s → waits s ≡ true → waits_at (find k rows) ≡ true

waited-head :
    (r s : Row) (rows after : List Row)
    → s.id ≡ r.id
    → WaitedBefore (r ∷ rows) (s ∷ after)
    → waits s ≡ true
    → waits r ≡ true
waited-head r s rows after e h w =
    rw (find-here s.id r rows (sym e)) at (h s.id s (find-here s.id s after refl) w)

waited-tail :
    (r s : Row) (rows after : List Row)
    → s.id ≡ r.id
    → find s.id after ≡ none
    → WaitedBefore (r ∷ rows) (s ∷ after)
    → WaitedBefore rows after
waited-tail r s rows after e gone h k q at w = elim (Bool-cases (s.id == k)) [
  | inl same ↦ absurd (cc (gone, at, ap (λ (j : Uuid). find j after) ((eq_iff s.id k).0 same)))
  | inr other ↦
      rw (find-there k r rows (ap (λ (j : Uuid). j == k) (sym e) ∙ other)) at
        (h k q (find-there k s after other ∙ at) w)
]

pub count-waits :
    (rows after : List Row)
    → ids_of after ≡ ids_of rows
    → HasUniqueIds rows
    → WaitedBefore rows after
    → count waits after ≤ count waits rows
count-waits [] [] e u h = omega arith
count-waits [] (s ∷ after) e u h = cc
count-waits (r ∷ rows) [] e u h = cc
count-waits (r ∷ rows) (s ∷ after) e u h =
    let head : s.id ≡ r.id = cc in
    let tail : ids_of after ≡ ids_of rows = cc in
    let gone : find s.id after ≡ none = (unique-ids (r ∷ rows) (s ∷ after) e u).0 in
    let rest : count waits after ≤ count waits rows =
      count-waits rows after tail u.1 (waited-tail r s rows after head gone h) in
    ground (arith, waited-head r s rows after head h, rest)
