-- ===== src/Batch/Claim.antt =====
-- app/batch_engine.py, step 2: claiming the reviews of a run and grouping them by profile.
use dost_review_api.Prelude.{
  ℕ, ◌==◌, Bool, not, ◌&&◌, some, List, [], ◌∷◌, ◌++◌, map, keep, take, leb, if◌then◌else◌,
}
use dost_review_api.Models.{Uuid}
use dost_review_api.Review.{Row, processing, is_gated, update_where}
use dost_review_api.Batch.Database.{elem}

-- `ORDER BY received_at`: insertion into a sorted list, behind the rows of the same time.
unfoldable pub insert_by_time : Row → List Row → List Row
insert_by_time r [] = r ∷ []
insert_by_time r (s ∷ rows) =
    if leb s.received_at r.received_at then s ∷ insert_by_time r rows else r ∷ s ∷ rows

unfoldable pub sort_by_time : List Row → List Row
sort_by_time [] = []
sort_by_time (r ∷ rows) = insert_by_time r (sort_by_time rows)

-- A GATED row that no other transaction has locked (`SKIP LOCKED`).
unfoldable pub is_claimable : (Uuid → Bool) → Row → Bool
is_claimable locked r = is_gated r.status && not (locked r.id)

-- The inner SELECT.
unfoldable pub chosen : (Uuid → Bool) → ℕ → List Row → List Row
chosen locked limit rows = take limit (sort_by_time (keep (is_claimable locked) rows))

unfoldable pub mark_processing : Uuid → Row → Row
mark_processing batch_id r = record r { status = processing; batch_id = some batch_id }

unfoldable pub claimed_ids : (Uuid → Bool) → ℕ → List Row → List Uuid
claimed_ids locked limit rows = map (λ r. r.id) (chosen locked limit rows)

-- The table after the UPDATE.
unfoldable pub claim : (Uuid → Bool) → ℕ → Uuid → List Row → List Row
claim locked limit batch_id rows =
    update_where (λ r. elem r.id (claimed_ids locked limit rows)) (mark_processing batch_id) rows

-- `RETURNING *`.
unfoldable pub claimed : (Uuid → Bool) → ℕ → Uuid → List Row → List Row
claimed locked limit batch_id rows =
    keep (λ r. elem r.id (claimed_ids locked limit rows)) (claim locked limit batch_id rows)

abbrev pub Group : Type 0
Group = Uuid × List Row

-- `profiles[row["target_profile_id"]].append(row)` on the `defaultdict`.
unfoldable pub add_to_group : Row → List Group → List Group
add_to_group r [] = (r.target_profile_id, r ∷ []) ∷ []
add_to_group r ((k, rows) ∷ groups) =
    if k == r.target_profile_id
    then (k, rows ++ r ∷ []) ∷ groups
    else (k, rows) ∷ add_to_group r groups

unfoldable pub group_onto : List Group → List Row → List Group
group_onto groups [] = groups
group_onto groups (r ∷ rows) = group_onto (add_to_group r groups) rows

unfoldable pub group_by_profile : List Row → List Group
group_by_profile rows = group_onto [] rows
