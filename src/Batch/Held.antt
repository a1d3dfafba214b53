-- ===== src/Batch/Held.antt =====
-- The reviews that a run holds, and how the handling of failed rows lets go of them.
use dost_review_api.Prelude.{
  ◌+◌, leb, ◌==◌, eq_iff, ◌≡◌, refl, Bool, true, false, not, ◌&&◌, ◌||◌, List, [], ◌∷◌, ◌++◌, arith,
  All, Bool-cases, inl, inr,
}
use dost_review_api.Models.{Uuid}
use dost_review_api.Review.{Row, is_processing, in_batch, update_where}
use dost_review_api.Batch.Database.{elem}
use dost_review_api.Batch.Claim.{Group}
use dost_review_api.Batch.Engine.{
  Settings, Env, Attempt, Work, finished, has_id, fail_row, dead_letter, requeue_row, handle_failed,
  ids_of,
}
use dost_review_api.Batch.Updates.{All-update}

-- The row is PROCESSING under this run.
abbrev pub is_held : Uuid → Row → Bool
is_held batch_id r = is_processing r.status && in_batch batch_id r.batch_id

-- Every row that the run holds has one of these ids.
abbrev pub HeldWithin : Uuid → List Uuid → List Row → Type 0
HeldWithin batch_id ids = All (λ r. is_held batch_id r ≡ true → elem r.id ids ≡ true)

-- The run holds no row.
abbrev pub IsSettled : Uuid → List Row → Type 0
IsSettled batch_id = All (λ r. is_held batch_id r ≡ false)

-- An UPDATE that frees the rows it meets, and meets every row whose id it takes off the list.
pub update-HeldWithin :
    (batch_id : Uuid) (before after : List Uuid) (p : Row → Bool) (f : Row → Row) (rows : List Row)
    → ((r : Row) → is_held batch_id (f r) ≡ false)
    → ((r : Row) → p r ≡ false → elem r.id before ≡ true → elem r.id after ≡ true)
    → HeldWithin batch_id before rows
    → HeldWithin batch_id after (update_where p f rows)
update-HeldWithin batch_id before after p f rows frees covers =
    All-update (λ r. is_held batch_id r ≡ true → elem r.id before ≡ true)
      (λ r. is_held batch_id r ≡ true → elem r.id after ≡ true) p f rows
      (λ r h. elim (Bool-cases (p r)) [
        | inl met ↦ rw met (λ e. absurd (ground (arith, frees r)))
        | inr other ↦ rw other (λ e. covers r other (h e))
      ])

module _ (batch_id : Uuid) (settings : Settings) (env : Env) (will_retry : Bool) where
  pub fail_row-HeldWithin :
      (row : Row) (before after : List Uuid) (w : Work)
      → ((k : Uuid) → (k == row.id) ≡ false → elem k before ≡ true → elem k after ≡ true)
      → HeldWithin batch_id before w.db.reviews
      → HeldWithin batch_id after (fail_row settings env.now will_retry row w).db.reviews
  unfolding fail_row dead_letter requeue_row has_id
  fail_row-HeldWithin row before after w covers h =
      let n = row.retry_count + 1 in
      elim (Bool-cases (not will_retry || leb settings.max_review_retries n)) [
        | inl dead ↦ rw dead (
            update-HeldWithin batch_id before after (has_id row.id) (dead_letter n env.now)
              w.db.reviews (λ r. refl) (λ r. covers r.id) h)
        | inr retry ↦ rw retry (
            update-HeldWithin batch_id before after (has_id row.id) (requeue_row n) w.db.reviews
              (λ r. refl) (λ r. covers r.id) h)
      ]

  -- Interrupted or not, the handling of failed rows lets the run hold no new row.
  pub handle_failed-keeps :
      (attempt : Attempt) (rows : List Row) (ids : List Uuid) (w : Work)
      → HeldWithin batch_id ids w.db.reviews
      → HeldWithin batch_id ids (handle_failed settings env attempt will_retry rows w).1.db.reviews
  unfolding handle_failed
  handle_failed-keeps attempt [] ids w h = h
  handle_failed-keeps attempt (row ∷ rows) ids w h =
      elim (Bool-cases (env.update_fails attempt row.id)) [
        | inl stops ↦ rw stops h
        | inr goes_on ↦ rw goes_on (
            handle_failed-keeps attempt rows ids (fail_row settings env.now will_retry row w)
              (fail_row-HeldWithin row ids ids w (λ k ne e. e) h))
      ]

  pub handle_failed-frees :
      (attempt : Attempt) (rows : List Row) (ids : List Uuid) (w : Work)
      → (handle_failed settings env attempt will_retry rows w).0 ≡ finished
      → HeldWithin batch_id (ids_of rows ++ ids) w.db.reviews
      → HeldWithin batch_id ids (handle_failed settings env attempt will_retry rows w).1.db.reviews
  unfolding handle_failed elem
  handle_failed-frees attempt [] ids w e h = h
  handle_failed-frees attempt (row ∷ rows) ids w e h =
      elim (Bool-cases (env.update_fails attempt row.id)) [
        | inl stops ↦ absurd (ground arith)
        | inr goes_on ↦ rw goes_on (
            handle_failed-frees attempt rows ids (fail_row settings env.now will_retry row w)
              (ground arith)
              (fail_row-HeldWithin row (row.id ∷ ids_of rows ++ ids) (ids_of rows ++ ids) w
                (λ k ne m. ground (arith, eq_iff k row.id, eq_iff row.id k)) h))
      ]

-- The ids of all rows of the groups.
abbrev pub group_ids : List Group → List Uuid
group_ids [] = []
group_ids (g ∷ groups) = ids_of g.1 ++ group_ids groups
