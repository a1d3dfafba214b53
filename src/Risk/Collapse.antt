-- ===== src/Risk/Collapse.antt =====
-- migrations/005_review_queue_single_open.sql: the UPDATE before the unique index on OPEN rows.
pub mod Newest
pub mod Migrated
use Prim.Native.Nat.{◌<◌}
use dost_review_api.Prelude.{
  ℕ, ◌+◌, ◌≤◌, ◌==◌, ◌&&◌, ◌||◌, not, eq_iff, ◌≡◌, ◌≢◌, refl, sym, ap, ◌∙◌, Bool, true, false,
  String, Option, none, some, List, [], ◌∷◌, map, any, count, ltb, leb, All, arith, if◌then◌else◌,
  Bool-cases, inl, inr,
}
use dost_review_api.Models.{Instant}
use dost_review_api.Risk.Store.{QueueRow, QueueStatus, open_review, expired, is_open, has_open}
use dost_review_api.Risk.Queue.{is_open_for}

-- A row with `created_at` and its `id`, as a number: UUIDs are ordered.
pub record QueueEntry : Type 0 where
  pub created_at : Instant
  pub id : ℕ
  pub row : QueueRow

-- `(newer.created_at, newer.id) > (q.created_at, q.id)`.
unfoldable pub is_newer : QueueEntry → QueueEntry → Bool
is_newer newer q =
    ltb q.created_at newer.created_at || (leb q.created_at newer.created_at && ltb q.id newer.id)

-- The condition of EXISTS.
unfoldable pub supersedes : QueueEntry → QueueEntry → Bool
unfolding is_newer
supersedes q newer =
    newer.row.profile_id == q.row.profile_id && is_open newer.row.status && is_newer newer q

unfoldable pub expire : QueueEntry → QueueEntry
expire q = record q { row = record q.row { status = expired } }

unfoldable pub collapse_row : List QueueEntry → QueueEntry → QueueEntry
collapse_row entries q = if is_open q.row.status && any (supersedes q) entries then expire q else q

-- The UPDATE; EXISTS looks at the rows as they were.
unfoldable pub collapse : List QueueEntry → List QueueEntry
collapse entries = map (collapse_row entries) entries

abbrev pub rows_of : List QueueEntry → List QueueRow
rows_of = map (λ (q : QueueEntry). q.row)

-- `id` is the primary key.
abbrev pub HasUniqueKeys : List QueueEntry → Type 0
HasUniqueKeys [] = Unit
HasUniqueKeys (q ∷ entries) = All (λ e. e.id ≢ q.id) entries × HasUniqueKeys entries

-- What is false of every entry is false of this one.
abbrev IsIn : List QueueEntry → QueueEntry → Type 0
IsIn entries q = (p : QueueEntry → Bool) → any p entries ≡ false → p q ≡ false

All-weaken :
    (P Q : QueueEntry → Type 0) (entries : List QueueEntry)
    → ((q : QueueEntry) → P q → Q q)
    → All P entries
    → All Q entries
All-weaken P Q [] h all = tt
All-weaken P Q (q ∷ entries) h all = (h q all.0, All-weaken P Q entries h all.1)

All-IsIn : (entries : List QueueEntry) → All (IsIn entries) entries
All-IsIn [] = tt
All-IsIn (q ∷ entries) = (
  (λ p none. ground (arith, none)),
  All-weaken (IsIn entries) (IsIn (q ∷ entries)) entries
      (λ e within p none. within p (ground (arith, none))) (All-IsIn entries),
)

-- An OPEN row of the profile that nothing supersedes.
abbrev Stands : List QueueEntry → String → QueueEntry → Type 0
Stands entries k q =
    ((q.row.profile_id == k) ≡ true)
    × (is_open q.row.status ≡ true)
    × (any (supersedes q) entries ≡ false)

collapsed-Stands :
    (entries : List QueueEntry) (k : String) (q : QueueEntry)
    → is_open_for k (collapse_row entries q).row ≡ true
    → Stands entries k q
unfolding collapse_row expire is_open_for
collapsed-Stands entries k q e =
    elim (Bool-cases (is_open q.row.status && any (supersedes q) entries)) [
      | inl met ↦ absurd (ground (arith, met, e))
      | inr other ↦
          let same : is_open_for k q.row ≡ true = rw other at e in
          (ground (arith, same), ground (arith, same), ground (arith, other, same))
    ]

-- Of two rows of a profile, one is newer.
not_newer :
    (q e : QueueEntry)
    → q.row.profile_id ≡ e.row.profile_id
    → is_open e.row.status ≡ true
    → supersedes q e ≡ false
    → is_newer e q ≡ false
unfolding supersedes is_newer
not_newer q e same e_open h =
    ground (arith, (eq_iff e.row.profile_id q.row.profile_id).1 (sym same), e_open, h)

newer_total : (q e : QueueEntry) → e.id ≢ q.id → is_newer e q ≡ false → is_newer q e ≡ false → ⊥
unfolding is_newer
newer_total q e differ h j = ground (arith, differ, h, j)

rivals :
    (entries : List QueueEntry) (k : String) (q e : QueueEntry)
    → e.id ≢ q.id
    → IsIn entries q
    → IsIn entries e
    → Stands entries k q
    → Stands entries k e
    → ⊥
rivals entries k q e differ q_in e_in (q_of, q_open, q_top) (e_of, e_open, e_top) =
    let same : q.row.profile_id ≡ e.row.profile_id =
      (eq_iff q.row.profile_id k).0 q_of ∙ sym ((eq_iff e.row.profile_id k).0 e_of) in
    newer_total q e differ (not_newer q e same e_open (e_in (supersedes q) q_top))
      (not_newer e q (sym same) q_open (q_in (supersedes e) e_top))

no_rival :
    (entries : List QueueEntry) (k : String) (q : QueueEntry) (part : List QueueEntry)
    → IsIn entries q
    → Stands entries k q
    → All (IsIn entries) part
    → All (λ e. e.id ≢ q.id) part
    → count (is_open_for k) (rows_of (map (collapse_row entries) part)) ≡ 0
no_rival entries k q [] q_in stands within differ = refl
no_rival entries k q (e ∷ part) q_in stands within differ =
    elim (Bool-cases (is_open_for k (collapse_row entries e).row)) [
      | inl counted ↦ absurd (
          rivals entries k q e differ.0 q_in within.0 stands (collapsed-Stands entries k e counted))
      | inr other ↦ rw other (no_rival entries k q part q_in stands within.1 differ.1)
    ]

single_in :
    (entries : List QueueEntry) (k : String) (part : List QueueEntry)
    → All (IsIn entries) part
    → HasUniqueKeys part
    → count (is_open_for k) (rows_of (map (collapse_row entries) part)) ≤ 1
single_in entries k [] within unique = omega arith
single_in entries k (q ∷ part) within unique =
    elim (Bool-cases (is_open_for k (collapse_row entries q).row)) [
      | inl counted ↦
          let rest =
            no_rival entries k q part within.0 (collapsed-Stands entries k q counted) within.1
              unique.0 in
          rw counted (omega (arith, rest))
      | inr other ↦ rw other (single_in entries k part within.1 unique.1)
    ]

pub collapse-single :
    (entries : List QueueEntry) (k : String)
    → HasUniqueKeys entries
    → count (is_open_for k) (rows_of (collapse entries)) ≤ 1
unfolding collapse
collapse-single entries k unique = single_in entries k entries (All-IsIn entries) unique
