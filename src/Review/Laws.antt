-- ===== src/Review/Laws.antt =====
-- Laws of the statements on the table `review`: what an upsert, an update and a lookup do together.
use dost_review_api.Prelude.{
  suc, ◌≤◌, ◌==◌, eq_iff, ◌≡◌, refl, Bool, true, false, not, Option, none, some, List, [], ◌∷◌,
  arith, count, if◌then◌else◌,
}
use dost_review_api.Models.{Uuid}
use dost_review_api.Review.{Row, is_rejected, find, upsert_rejected}

-- What `upsert_rejected` leaves at the key of the new row.
abbrev pub upserted : Row → (Row → Row) → Option Row → Row
upserted new merge none = new
upserted new merge (some r) = if is_rejected r.status then merge r else r

abbrev pub is_live : Option Row → Bool
is_live none = false
is_live (some r) = not (is_rejected r.status)

-- No two rows share an id (the primary key).
abbrev pub HasUniqueIds : List Row → Type 0
HasUniqueIds [] = Unit
HasUniqueIds (r ∷ rows) = (find r.id rows ≡ none) × HasUniqueIds rows

module _ (new : Row) (merge : Row → Row) (keeps_id : (r : Row) → (merge r).id ≡ r.id) where
  pub find-upsert :
      (k : Uuid) (rows : List Row)
      → find k (upsert_rejected new merge rows).0
        ≡ (if new.id == k then some (upserted new merge (find new.id rows)) else find k rows)
  unfolding find upsert_rejected
  find-upsert k [] = refl
  find-upsert k (r ∷ rows) = ground (
    arith,
    find-upsert k rows,
    eq_iff r.id new.id,
    eq_iff r.id k,
    eq_iff new.id k,
    keeps_id r,
    eq_iff (merge r).id k,
  )

pub rows_affected :
    (new : Row) (merge : Row → Row) (rows : List Row)
    → (upsert_rejected new merge rows).1 ≡ (if is_live (find new.id rows) then 0 else 1)
unfolding find upsert_rejected
rows_affected new merge [] = refl
rows_affected new merge (r ∷ rows) = ground (arith, rows_affected new merge rows)

-- One upsert adds at most one row to what a test counts.
pub count-upsert-le :
    (p : Row → Bool) (new : Row) (merge : Row → Row) (rows : List Row)
    → count p (upsert_rejected new merge rows).0 ≤ suc (count p rows)
unfolding upsert_rejected
count-upsert-le p new merge [] = ground arith
count-upsert-le p new merge (r ∷ rows) = ground (arith, count-upsert-le p new merge rows)

-- It adds none where the test refuses the rows that the upsert makes.
pub count-upsert-refused :
    (p : Row → Bool) (new : Row) (merge : Row → Row) (rows : List Row)
    → p new ≡ false
    → ((r : Row) → is_rejected r.status ≡ true → p (merge r) ≡ false)
    → count p (upsert_rejected new merge rows).0 ≤ count p rows
unfolding upsert_rejected
count-upsert-refused p new merge [] hn hm = ground arith
count-upsert-refused p new merge (r ∷ rows) hn hm =
    ground (arith, count-upsert-refused p new merge rows hn hm, hm r)

-- A test that implies another counts no more rows.
pub count_mono :
    (p q : Row → Bool) (rows : List Row)
    → ((r : Row) → p r ≡ true → q r ≡ true)
    → count p rows ≤ count q rows
count_mono p q [] h = omega arith
count_mono p q (r ∷ rows) h = ground (arith, count_mono p q rows h, h r)

pub id-find : (k : Uuid) (rows : List Row) (r : Row) → find k rows ≡ some r → r.id ≡ k
unfolding find
id-find k [] r e = cc
id-find k (s ∷ rows) r e = ground (arith, eq_iff s.id k, id-find k rows r)
