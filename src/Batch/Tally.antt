-- ===== src/Batch/Tally.antt =====
-- Counting the reviews of a run in the table.
use dost_review_api.Prelude.{
  ℕ, ◌+◌, ◌≤◌, ◌==◌, eq_iff, eq_refl, ◌≡◌, refl, Bool, true, false, ◌&&◌, none, List, [], ◌∷◌,
  arith, count, keep, length, All, Bool-cases, inl, inr,
}
use dost_review_api.Models.{Uuid}
use dost_review_api.Review.{
  Status, gated, gate_rejected, processing, committed, failed, Row, is_gated, is_rejected, in_batch,
  find, update_where,
}
use dost_review_api.Review.Laws.{HasUniqueIds}
use dost_review_api.Batch.Database.{elem}
use dost_review_api.Batch.Claim.{mark_processing}
use dost_review_api.Batch.Engine.{has_id}
use dost_review_api.Batch.Held.{IsSettled}

abbrev pub is_committed : Status → Bool
is_committed committed = true
is_committed _ = false

abbrev pub is_failed : Status → Bool
is_failed failed = true
is_failed _ = false

-- How many reviews of this run have such a status.
abbrev pub tally : (Status → Bool) → Uuid → List Row → ℕ
tally p b rows = count (λ r. in_batch b r.batch_id && p r.status) rows

abbrev pub batch_size : Uuid → List Row → ℕ
batch_size b rows = count (λ r. in_batch b r.batch_id) rows

-- An UPDATE that makes no row meet `q`, and one that makes some.
pub count-clears :
    (p q : Row → Bool) (f : Row → Row) (rows : List Row)
    → ((r : Row) → q (f r) ≡ false)
    → count q (update_where p f rows) ≤ count q rows
unfolding update_where
count-clears p q f [] h = omega arith
count-clears p q f (r ∷ rows) h = ground (arith, h r, count-clears p q f rows h)

pub count-adds :
    (p q : Row → Bool) (f : Row → Row) (rows : List Row)
    → count q (update_where p f rows) ≤ count q rows + count p rows
unfolding update_where
count-adds p q f [] = omega arith
count-adds p q f (r ∷ rows) = ground (arith, count-adds p q f rows)

pub count-same :
    (p q : Row → Bool) (f : Row → Row) (rows : List Row)
    → ((r : Row) → q (f r) ≡ q r)
    → count q (update_where p f rows) ≡ count q rows
unfolding update_where
count-same p q f [] h = refl
count-same p q f (r ∷ rows) h = elim (Bool-cases (p r)) [
  | inl met ↦ rw (met, h r) (ground (arith, count-same p q f rows h))
  | inr other ↦ rw other (ground (arith, count-same p q f rows h))
]

absent-count : (k : Uuid) (rows : List Row) → find k rows ≡ none → count (has_id k) rows ≡ 0
unfolding find has_id
absent-count k [] e = refl
absent-count k (r ∷ rows) e = ground (arith, absent-count k rows)

pub count-has_id : (k : Uuid) (rows : List Row) → HasUniqueIds rows → count (has_id k) rows ≤ 1
unfolding has_id
count-has_id k [] u = omega arith
count-has_id k (r ∷ rows) u = elim (Bool-cases (r.id == k)) [
  | inl same ↦
      let key : r.id ≡ k = (eq_iff r.id k).0 same in
      rw same (omega (arith, absent-count k rows (rw key at u.0)))
  | inr other ↦ rw other (count-has_id k rows u.1)
]

count-elem_cons :
    (k : Uuid) (ids : List Uuid) (rows : List Row)
    → count (λ r. elem r.id (k ∷ ids)) rows
      ≤ count (has_id k) rows + count (λ r. elem r.id ids) rows
unfolding elem has_id
count-elem_cons k ids [] = omega arith
count-elem_cons k ids (r ∷ rows) =
    ground (arith, count-elem_cons k ids rows, eq_iff r.id k, eq_iff k r.id)

count-elem_nil : (rows : List Row) → count (λ r. elem r.id []) rows ≡ 0
unfolding elem
count-elem_nil [] = refl
count-elem_nil (r ∷ rows) = count-elem_nil rows

pub count-elem :
    (ids : List Uuid) (rows : List Row)
    → HasUniqueIds rows
    → count (λ r. elem r.id ids) rows ≤ length ids
count-elem [] rows u = omega (arith, count-elem_nil rows)
count-elem (k ∷ ids) rows u =
    omega (arith, count-elem_cons k ids rows, count-has_id k rows u, count-elem ids rows u)

-- A run has no refused review.
abbrev pub IsTaken : Uuid → Row → Type 0
IsTaken b r = in_batch b r.batch_id ≡ true → is_rejected r.status ≡ false

-- What the claim does to the counts.
pub claim-batch_size :
    (b : Uuid) (ids : List Uuid) (rows : List Row)
    → All (λ r. in_batch b r.batch_id ≡ false) rows
    → let after = update_where (λ r. elem r.id ids) (mark_processing b) rows in
      batch_size b after ≡ length (keep (λ r. elem r.id ids) after)
unfolding update_where mark_processing
claim-batch_size b ids [] fresh = refl
claim-batch_size b ids (r ∷ rows) fresh = elim (Bool-cases (elem r.id ids)) [
  | inl met ↦ rw (met, met, eq_refl b) (ground (arith, claim-batch_size b ids rows fresh.1))
  | inr other ↦ rw (other, other, fresh.0) (claim-batch_size b ids rows fresh.1)
]

pub claim-tally :
    (p : Status → Bool) (b : Uuid) (ids : List Uuid) (rows : List Row)
    → p processing ≡ false
    → All (λ r. in_batch b r.batch_id ≡ false) rows
    → tally p b (update_where (λ r. elem r.id ids) (mark_processing b) rows) ≡ 0
unfolding update_where mark_processing
claim-tally p b ids [] idle fresh = refl
claim-tally p b ids (r ∷ rows) idle fresh = elim (Bool-cases (elem r.id ids)) [
  | inl met ↦ rw (met, idle) (ground (arith, claim-tally p b ids rows idle fresh.1))
  | inr other ↦ rw (other, fresh.0) (claim-tally p b ids rows idle fresh.1)
]

-- Every review of a run that holds none has ended in one of three ways.
pub batch_size-tallies :
    (b : Uuid) (rows : List Row)
    → All (IsTaken b) rows
    → IsSettled b rows
    → batch_size b rows ≡ tally is_committed b rows + tally is_gated b rows + tally is_failed b rows
batch_size-tallies b [] taken idle = refl
batch_size-tallies b (r ∷ rows) taken idle =
    go r.status refl (batch_size-tallies b rows taken.1 idle.1)
  where
    go :
        (s : Status)
        → r.status ≡ s
        → batch_size b rows
          ≡ tally is_committed b rows + tally is_gated b rows + tally is_failed b rows
        → batch_size b (r ∷ rows)
          ≡ tally is_committed b (r ∷ rows)
            + tally is_gated b (r ∷ rows)
            + tally is_failed b (r ∷ rows)
    go gated e rest = rw e (ground (arith, rest))
    go gate_rejected e rest = rw e (ground (arith, rest, rw e at taken.0))
    go processing e rest = rw e (ground (arith, rest, rw e at idle.0))
    go committed e rest = rw e (ground (arith, rest))
    go failed e rest = rw e (ground (arith, rest))
