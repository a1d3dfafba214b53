-- ===== src/Risk/Collapse/Migrated.antt =====
-- The migration 005 and what follows it.
mod Tests
use Prim.Native.Nat.{◌<◌}
use dost_review_api.Prelude.{
  ℕ, ◌+◌, ◌≤◌, ◌==◌, ◌&&◌, ◌||◌, not, eq_iff, ◌≡◌, ◌≢◌, refl, sym, ap, ◌∙◌, Bool, true, false,
  String, Option, none, some, List, [], ◌∷◌, map, any, count, ltb, leb, All, arith, if◌then◌else◌,
  Bool-cases, Option-cases, inl, inr,
}
use dost_review_api.Risk.Store.{RiskDb, QueueRow, is_open, has_open}
use dost_review_api.Risk.Queue.{is_open_for, HasSingleOpen}
use dost_review_api.Risk.Served.{Serves, served-HasSingleOpen}
use dost_review_api.Risk.Collapse.{
  QueueEntry, is_newer, supersedes, expire, collapse_row, collapse, rows_of, HasUniqueKeys,
  collapse-single,
}
use dost_review_api.Risk.Collapse.Newest.{collapse-has_open}

-- The UPDATE a second time.
supersedes-collapsed :
    (entries : List QueueEntry) (q e : QueueEntry)
    → supersedes q (collapse_row entries e) ≡ true
    → supersedes q e ≡ true
unfolding supersedes is_newer collapse_row expire
supersedes-collapsed entries q e h =
    elim (Bool-cases (is_open e.row.status && any (supersedes e) entries)) [
      | inl met ↦ absurd (ground (arith, rw met at h))
      | inr other ↦ rw other at h
    ]

any-supersedes :
    (entries part : List QueueEntry) (q : QueueEntry)
    → any (supersedes q) part ≡ false
    → any (supersedes q) (map (collapse_row entries) part) ≡ false
any-supersedes entries [] q h = refl
any-supersedes entries (e ∷ part) q h =
    ground (arith, h, supersedes-collapsed entries q e, any-supersedes entries part q)

stays_off : (b c c' : Bool) → (b && c) ≡ false → (c ≡ false → c' ≡ false) → (b && c') ≡ false
stays_off b c c' h j = ground (arith, h, j)

again-same :
    (entries : List QueueEntry) (q : QueueEntry)
    → collapse_row (collapse entries) (collapse_row entries q) ≡ collapse_row entries q
unfolding collapse collapse_row expire
again-same entries q = elim (Bool-cases (is_open q.row.status && any (supersedes q) entries)) [
  | inl met ↦ rw met refl
  | inr other ↦
      let still : (is_open q.row.status && any (supersedes q) (map (collapse_row entries) entries))
          ≡ false =
        stays_off (is_open q.row.status) (any (supersedes q) entries)
          (any (supersedes q) (map (collapse_row entries) entries)) other
          (any-supersedes entries entries q) in
      rw other (rw still refl)
]

collapse-idempotent : (entries : List QueueEntry) → collapse (collapse entries) ≡ collapse entries
unfolding collapse
collapse-idempotent entries = go entries
  where
    go :
        (part : List QueueEntry)
        → map (collapse_row (map (collapse_row entries) entries)) (map (collapse_row entries) part)
          ≡ map (collapse_row entries) part
    go [] = refl
    go (q ∷ part) =
        ap
          (λ (e : QueueEntry).
            e
            ∷ map (collapse_row (map (collapse_row entries) entries))
                (map (collapse_row entries) part))
          (unfold collapse in again-same entries q)
        ∙ ap (λ (rest : List QueueEntry). collapse_row entries q ∷ rest) (go part)

-- The migration 005 makes its unique index hold for good, and forgets nobody: on a queue with unique ids,
-- after its UPDATE no profile has two OPEN rows, nor has any later, whatever is ingested; and each profile
-- has an OPEN row after the UPDATE just if it had one before. The UPDATE once more, as at each start,
-- changes nothing.
pub migrated-HasSingleOpen :
    (entries : List QueueEntry) (db db' : RiskDb)
    → HasUniqueKeys entries
    → db.queue ≡ rows_of (collapse entries)
    → Serves db db'
    → HasSingleOpen db
      × HasSingleOpen db'
      × ((k : String) → has_open k db.queue ≡ has_open k (rows_of entries))
      × (collapse (collapse entries) ≡ collapse entries)
migrated-HasSingleOpen entries db db' unique migrated steps =
    let single : HasSingleOpen db = λ k. rw migrated (collapse-single entries k unique) in
    (
      single,
      served-HasSingleOpen db db' steps single,
      (λ k. rw migrated (collapse-has_open k entries)),
      collapse-idempotent entries,
    )
