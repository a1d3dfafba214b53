-- ===== src/Batch/Chosen.antt =====
-- Which rows a claim takes: GATED ones, and none that another claim has taken.
use dost_review_api.Prelude.{
  ℕ, zero, suc, ◌==◌, eq_iff, ◌≡◌, refl, ap, Bool, true, false, Option, none, some, List, [], ◌∷◌,
  arith, keep, take, Bool-cases, inl, inr, if◌then◌else◌,
}
use dost_review_api.Models.{Uuid}
use dost_review_api.Review.{Row, find, update_where}
use dost_review_api.Review.Laws.{HasUniqueIds, id-find}
use dost_review_api.Batch.Database.{elem}
use dost_review_api.Batch.Claim.{
  insert_by_time, sort_by_time, is_claimable, chosen, claimed_ids, mark_processing, claim,
}
use dost_review_api.Batch.Engine.{ids_of}

elem-insert :
    (k : Uuid) (r : Row) (rows : List Row)
    → elem k (ids_of (insert_by_time r rows)) ≡ (if r.id == k then true else elem k (ids_of rows))
unfolding insert_by_time elem
elem-insert k r [] = refl
elem-insert k r (s ∷ rows) = ground (arith, elem-insert k r rows)

pub elem-sort :
    (k : Uuid) (rows : List Row) → elem k (ids_of (sort_by_time rows)) ≡ elem k (ids_of rows)
unfolding sort_by_time elem
elem-sort k [] = refl
elem-sort k (r ∷ rows) = ground (arith, elem-insert k r (sort_by_time rows), elem-sort k rows)

elem-take :
    (k : Uuid) (n : ℕ) (rows : List Row)
    → elem k (ids_of (take n rows)) ≡ true
    → elem k (ids_of rows) ≡ true
unfolding elem
elem-take k zero rows h = absurd (ground arith)
elem-take k (suc n) [] h = h
elem-take k (suc n) (r ∷ rows) h = ground (arith, elem-take k n rows)

pub elem-chosen :
    (locked : Uuid → Bool) (n : ℕ) (k : Uuid) (rows : List Row)
    → elem k (claimed_ids locked n rows) ≡ true
    → elem k (ids_of (keep (is_claimable locked) rows)) ≡ true
unfolding claimed_ids chosen
elem-chosen locked n k rows h =
    rw elem-sort at (elem-take k n (sort_by_time (keep (is_claimable locked) rows)) h)

pub elem-keep-le :
    (p : Row → Bool) (k : Uuid) (rows : List Row)
    → elem k (ids_of (keep p rows)) ≡ true
    → elem k (ids_of rows) ≡ true
unfolding elem
elem-keep-le p k [] h = h
elem-keep-le p k (r ∷ rows) h = ground (arith, elem-keep-le p k rows)

pub not-elem-find : (k : Uuid) (rows : List Row) → find k rows ≡ none → elem k (ids_of rows) ≡ false
unfolding elem find
not-elem-find k [] e = refl
not-elem-find k (r ∷ rows) e = ground (arith, not-elem-find k rows)

pub find-keep :
    (p : Row → Bool) (k : Uuid) (rows : List Row) (r : Row)
    → HasUniqueIds rows
    → find k rows ≡ some r
    → elem k (ids_of (keep p rows)) ≡ true
    → p r ≡ true
unfolding find elem
find-keep p k [] r u e h = cc
find-keep p k (s ∷ rows) r u e h = elim (Bool-cases (s.id == k)) [
  | inl same ↦
      let key : s.id ≡ k = (eq_iff s.id k).0 same in
      let absent : elem k (ids_of rows) ≡ false = rw (← key) (not-elem-find s.id rows u.0) in
      ground (arith, elem-keep-le p k rows)
  | inr other ↦ ground (arith, find-keep p k rows r u.1)
]

module _ (p : Row → Bool) (f : Row → Row) (keeps_id : (r : Row) → (f r).id ≡ r.id) where
  abbrev pub updated : Option Row → Option Row
  updated none = none
  updated (some r) = some (if p r then f r else r)

  pub find-update :
      (k : Uuid) (rows : List Row) → find k (update_where p f rows) ≡ updated (find k rows)
  unfolding find update_where
  find-update k [] = refl
  find-update k (r ∷ rows) = elim (Bool-cases (p r)) [
    | inl met ↦
        rw met (ground (arith, keeps_id r, find-update k rows, eq_iff (f r).id k, eq_iff r.id k))
    | inr other ↦ rw other (ground (arith, find-update k rows))
  ]

taken-unclaimable :
    (locked : Uuid → Bool) (batch_id k : Uuid) (ids : List Uuid) (rows : List Row)
    → elem k ids ≡ true
    → elem k (
        ids_of (
          keep
            (is_claimable locked)
            (update_where (λ r. elem r.id ids) (mark_processing batch_id) rows)))
      ≡ false
unfolding update_where mark_processing is_claimable elem
taken-unclaimable locked batch_id k ids [] h = refl
taken-unclaimable locked batch_id k ids (r ∷ rows) h = elim (Bool-cases (elem r.id ids)) [
  | inl met ↦ rw met (taken-unclaimable locked batch_id k ids rows h)
  | inr other ↦ rw other (elim (Bool-cases (r.id == k)) [
    | inl same ↦
        let key : r.id ≡ k = (eq_iff r.id k).0 same in
        absurd (cc (h, other, ap (λ (j : Uuid). elem j ids) key))
    | inr ne ↦ ground (arith, taken-unclaimable locked batch_id k ids rows h)
  ])
]

module _ (locked : Uuid → Bool) (n : ℕ) (batch_id : Uuid) (rows : List Row) where
  -- Where ids are unique, a review that is not GATED, or is locked by another transaction, is not
  -- touched by a claim.
  pub find-claim_other :
      (k : Uuid) (r : Row)
      → HasUniqueIds rows
      → find k rows ≡ some r
      → is_claimable locked r ≡ false
      → find k (claim locked n batch_id rows) ≡ some r
  unfolding claim mark_processing
  find-claim_other k r u e h =
      let ids = claimed_ids locked n rows in
      rw (find-update (λ s. elem s.id ids) (mark_processing batch_id) (λ s. refl) k rows) (
        ground (
          arith,
          id-find k rows r e,
          elem-chosen locked n k rows,
          find-keep (is_claimable locked) k rows r u e,
        ))

  -- No later claim chooses a review that this one has taken, whatever other transactions hold.
  pub claims_disjoint :
      (locked' : Uuid → Bool) (n' : ℕ) (k : Uuid)
      → elem k (claimed_ids locked n rows) ≡ true
      → elem k (claimed_ids locked' n' (claim locked n batch_id rows)) ≡ false
  unfolding claim mark_processing
  claims_disjoint locked' n' k taken =
      let ids = claimed_ids locked n rows in
      elim (Bool-cases (elem k (claimed_ids locked' n' (claim locked n batch_id rows)))) [
        | inr free ↦ free
        | inl again ↦ absurd (
            ground (
              arith,
              taken-unclaimable locked' batch_id k ids rows taken,
              elem-chosen locked' n' k (claim locked n batch_id rows),
            ))
      ]
