-- ===== src/Batch/Taken.antt =====
-- Every review that a run claims is in one of its groups.
use dost_review_api.Prelude.{
  ◌==◌, eq_iff, eq_refl, ◌≡◌, refl, true, false, List, [], ◌∷◌, ◌++◌, arith, keep, All,
  if◌then◌else◌, Bool-cases, inl, inr,
}
use dost_review_api.Models.{Uuid}
use dost_review_api.Review.{Row, in_batch, update_where}
use dost_review_api.Batch.Database.{Db, elem}
use dost_review_api.Batch.Claim.{
  Group, claim, claimed, claimed_ids, mark_processing, add_to_group, group_onto, group_by_profile,
}
use dost_review_api.Batch.Engine.{Settings, Env, ids_of, claimed_work}
use dost_review_api.Batch.Updates.{All-update, All-mono, elem-append}
use dost_review_api.Batch.Held.{is_held, HeldWithin, IsSettled, group_ids}

elem-ids-snoc :
    (k : Uuid) (r : Row) (rows : List Row)
    → elem k (ids_of (rows ++ r ∷ [])) ≡ (if r.id == k then true else elem k (ids_of rows))
unfolding elem
elem-ids-snoc k r [] = refl
elem-ids-snoc k r (s ∷ rows) = ground (arith, elem-ids-snoc k r rows)

-- Every claimed row is in a group.
elem-add_to_group :
    (k : Uuid) (r : Row) (groups : List Group)
    → elem k (group_ids (add_to_group r groups))
      ≡ (if r.id == k then true else elem k (group_ids groups))
unfolding add_to_group elem
elem-add_to_group k r [] = refl
elem-add_to_group k r ((t, rows) ∷ groups) = ground (
  arith,
  elem-add_to_group k r groups,
  elem-append k (ids_of rows) (group_ids groups),
  elem-append k (ids_of rows) (group_ids (add_to_group r groups)),
  elem-append k (ids_of (rows ++ r ∷ [])) (group_ids groups),
  elem-ids-snoc k r rows,
)

pub elem-group_onto :
    (k : Uuid) (rows : List Row) (groups : List Group)
    → elem k (group_ids (group_onto groups rows))
      ≡ (if elem k (ids_of rows) then true else elem k (group_ids groups))
unfolding group_onto elem
elem-group_onto k [] groups = refl
elem-group_onto k (r ∷ rows) groups =
    ground (arith, elem-group_onto k rows (add_to_group r groups), elem-add_to_group k r groups)

pub elem-keep :
    (k : Uuid) (ids : List Uuid) (rows : List Row)
    → elem k ids ≡ true
    → elem k (ids_of rows) ≡ true
    → elem k (ids_of (keep (λ r. elem r.id ids) rows)) ≡ true
unfolding elem
elem-keep k ids [] e m = m
elem-keep k ids (r ∷ rows) e m = elim (Bool-cases (r.id == k)) [
  | inl same ↦ let q : r.id ≡ k = (eq_iff r.id k).0 same in rw (q, e, eq_refl)
  | inr other ↦ ground (arith, elem-keep k ids rows e)
]

All-own : (rows : List Row) → All (λ r. elem r.id (ids_of rows) ≡ true) rows
unfolding elem
All-own [] = tt
All-own (r ∷ rows) = (
  ground (arith, eq_iff r.id r.id),
  All-mono (λ s. elem s.id (ids_of rows) ≡ true) (λ s. elem s.id (ids_of (r ∷ rows)) ≡ true) rows
      (λ s e. ground arith) (All-own rows),
)

module _ (batch_id : Uuid) where
  -- A run is fresh when no row has its id.
  abbrev pub IsFresh : List Row → Type 0
  IsFresh = All (λ r. in_batch batch_id r.batch_id ≡ false)

  pub IsFresh-IsSettled : (rows : List Row) → IsFresh rows → IsSettled batch_id rows
  IsFresh-IsSettled rows =
      All-mono (λ r. in_batch batch_id r.batch_id ≡ false) (λ r. is_held batch_id r ≡ false) rows
        (λ r e. ground arith)

  held-claim :
      (ids : List Uuid) (rows : List Row)
      → IsSettled batch_id rows
      → HeldWithin batch_id ids (update_where (λ r. elem r.id ids) (mark_processing batch_id) rows)
  unfolding mark_processing
  held-claim ids rows =
      All-update (λ r. is_held batch_id r ≡ false)
        (λ r. is_held batch_id r ≡ true → elem r.id ids ≡ true) (λ r. elem r.id ids)
        (mark_processing batch_id) rows
        (λ r fresh. elim (Bool-cases (elem r.id ids)) [
          | inl met ↦ rw met (λ e. met)
          | inr other ↦ rw other (λ e. absurd (ground arith))
        ])

  -- Each held row is among the rows returned.
  elem-returned :
      (ids : List Uuid) (rows : List Row)
      → HeldWithin batch_id ids rows
      → HeldWithin batch_id (ids_of (keep (λ r. elem r.id ids) rows)) rows
  elem-returned ids rows h = go rows h (All-own rows)
    where
      go :
          (part : List Row)
          → HeldWithin batch_id ids part
          → All (λ r. elem r.id (ids_of rows) ≡ true) part
          → HeldWithin batch_id (ids_of (keep (λ r. elem r.id ids) rows)) part
      go [] h own = tt
      go (r ∷ part) h own = ((λ held. elem-keep r.id ids rows (h.0 held) own.0), go part h.1 own.1)

  pub claimed_work-HeldWithin :
      (settings : Settings) (env : Env) (db : Db)
      → IsSettled batch_id db.reviews
      → HeldWithin batch_id
          (group_ids (
            group_by_profile
              (claimed env.locked settings.max_reviews_per_batch batch_id db.reviews)))
          (claimed_work settings env batch_id db).db.reviews
  unfolding claimed_work claimed claim group_by_profile
  claimed_work-HeldWithin settings env db fresh =
      let ids = claimed_ids env.locked settings.max_reviews_per_batch db.reviews in
      let rows = update_where (λ r. elem r.id ids) (mark_processing batch_id) db.reviews in
      let back = keep (λ r. elem r.id ids) rows in
      All-mono (λ r. is_held batch_id r ≡ true → elem r.id (ids_of back) ≡ true)
        (λ r. is_held batch_id r ≡ true → elem r.id (group_ids (group_onto [] back)) ≡ true) rows
        (λ r h held. rw (elem-group_onto, h held))
        (elem-returned ids rows (held-claim ids db.reviews fresh))
