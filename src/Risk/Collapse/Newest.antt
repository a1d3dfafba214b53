-- ===== src/Risk/Collapse/Newest.antt =====
-- Every profile that has OPEN rows keeps one of them when they are collapsed: the newest.
use dost_review_api.Prelude.{
  eq_iff, ◌≡◌, refl, sym, ◌∙◌, Bool, true, false, String, Option, none, some, List, [], ◌∷◌, map,
  any, All, arith, if◌then◌else◌, Bool-cases, inl, inr,
}
use dost_review_api.Risk.Store.{has_open}
use dost_review_api.Risk.Queue.{is_open_for}
use dost_review_api.Risk.Collapse.{
  QueueEntry, is_newer, supersedes, expire, collapse_row, collapse, rows_of,
}

abbrev newer_of : QueueEntry → Option QueueEntry → QueueEntry
newer_of q none = q
newer_of q (some m) = if is_newer m q then m else q

abbrev latest : String → List QueueEntry → Option QueueEntry
latest k [] = none
latest k (q ∷ entries) =
    if is_open_for k q.row then some (newer_of q (latest k entries)) else latest k entries

-- No OPEN row of the profile is newer.
abbrev IsTop : String → QueueEntry → QueueEntry → Type 0
IsTop k m e = is_open_for k e.row ≡ true → is_newer e m ≡ false

abbrev IsLatest : String → List QueueEntry → Option QueueEntry → Type 0
IsLatest k entries none = All (λ e. is_open_for k e.row ≡ false) entries
IsLatest k entries (some m) =
    (is_open_for k m.row ≡ true)
    × ((p : QueueEntry → Bool) → p m ≡ true → any p entries ≡ true)
    × All (IsTop k m) entries

All-weaken :
    (P Q : QueueEntry → Type 0) (entries : List QueueEntry)
    → ((q : QueueEntry) → P q → Q q)
    → All P entries
    → All Q entries
All-weaken P Q [] h all = tt
All-weaken P Q (q ∷ entries) h all = (h q all.0, All-weaken P Q entries h all.1)

newer_irrefl : (q : QueueEntry) → is_newer q q ≡ false
unfolding is_newer
newer_irrefl q = ground arith

newer_asym : (q m : QueueEntry) → is_newer m q ≡ true → is_newer q m ≡ false
unfolding is_newer
newer_asym q m h = ground (arith, h)

not_newer_trans :
    (e m q : QueueEntry) → is_newer e m ≡ false → is_newer m q ≡ false → is_newer e q ≡ false
unfolding is_newer
not_newer_trans e m q h j = ground (arith, h, j)

pick-IsLatest :
    (k : String) (q m : QueueEntry) (entries : List QueueEntry) (newer : Bool)
    → is_newer m q ≡ newer
    → is_open_for k q.row ≡ true
    → IsLatest k entries (some m)
    → IsLatest k (q ∷ entries) (some (if newer then m else q))
pick-IsLatest k q m entries true newer e h =
    (h.0, (λ p is. ground (arith, h.1 p is)), ((λ r. newer_asym q m newer), h.2))
pick-IsLatest k q m entries false older e h = (
  e,
  (λ p is. rw is refl),
  (
    (λ r. newer_irrefl q),
    All-weaken (IsTop k m) (IsTop k q) entries (λ c top is. not_newer_trans c m q (top is) older)
        h.2,
  ),
)

step-IsLatest :
    (k : String) (q : QueueEntry) (entries : List QueueEntry) (o : Option QueueEntry)
    → is_open_for k q.row ≡ true
    → IsLatest k entries o
    → IsLatest k (q ∷ entries) (some (newer_of q o))
step-IsLatest k q entries none e h = (
  e,
  (λ p is. rw is refl),
  (
    (λ r. newer_irrefl q),
    All-weaken (λ c. is_open_for k c.row ≡ false) (IsTop k q) entries
        (λ c closed is. absurd (cc (closed, is))) h,
  ),
)
step-IsLatest k q entries (some m) e h = pick-IsLatest k q m entries (is_newer m q) refl e h

skip-IsLatest :
    (k : String) (q : QueueEntry) (entries : List QueueEntry) (o : Option QueueEntry)
    → is_open_for k q.row ≡ false
    → IsLatest k entries o
    → IsLatest k (q ∷ entries) o
skip-IsLatest k q entries none e h = (e, h)
skip-IsLatest k q entries (some m) e h =
    (h.0, (λ p is. ground (arith, h.1 p is)), ((λ is. absurd (cc (e, is))), h.2))

latest-IsLatest : (k : String) (entries : List QueueEntry) → IsLatest k entries (latest k entries)
latest-IsLatest k [] = tt
latest-IsLatest k (q ∷ entries) = elim (Bool-cases (is_open_for k q.row)) [
  | inl mine ↦
      rw mine (step-IsLatest k q entries (latest k entries) mine (latest-IsLatest k entries))
  | inr other ↦
      rw other (skip-IsLatest k q entries (latest k entries) other (latest-IsLatest k entries))
]

-- Nothing supersedes the newest.
not_superseded :
    (k : String) (m c : QueueEntry)
    → is_open_for k m.row ≡ true
    → IsTop k m c
    → supersedes m c ≡ false
unfolding supersedes is_open_for
not_superseded k m c e top = ground (
  arith,
  e,
  top,
  eq_iff c.row.profile_id m.row.profile_id,
  eq_iff c.row.profile_id k,
  eq_iff m.row.profile_id k,
)

none_open :
    (k : String) (entries : List QueueEntry)
    → All (λ e. is_open_for k e.row ≡ false) entries
    → has_open k (rows_of entries) ≡ false
unfolding has_open is_open_for
none_open k [] h = refl
none_open k (q ∷ entries) h = ground (arith, h.0, none_open k entries h.1)

top-stays :
    (k : String) (m : QueueEntry) (entries : List QueueEntry)
    → is_open_for k m.row ≡ true
    → All (IsTop k m) entries
    → any (supersedes m) entries ≡ false
top-stays k m [] e top = refl
top-stays k m (c ∷ entries) e top =
    ground (arith, not_superseded k m c e top.0, top-stays k m entries e top.1)

any-collapsed :
    (k : String) (entries part : List QueueEntry)
    → any (λ q. is_open_for k (collapse_row entries q).row) part
      ≡ has_open k (rows_of (map (collapse_row entries) part))
unfolding has_open is_open_for
any-collapsed k entries [] = refl
any-collapsed k entries (q ∷ part) = ground (arith, any-collapsed k entries part)

kept_open :
    (k : String) (entries : List QueueEntry) (o : Option QueueEntry)
    → IsLatest k entries o
    → has_open k (rows_of entries) ≡ true
    → has_open k (rows_of (map (collapse_row entries) entries)) ≡ true
kept_open k entries none h open_row = absurd (cc (open_row, none_open k entries h))
kept_open k entries (some m) (e, within, top) open_row =
    sym (any-collapsed k entries entries)
    ∙ within (λ q. is_open_for k (collapse_row entries q).row)
        (unfold collapse_row in rw (top-stays k m entries e top) (ground (arith, e)))

never_opens :
    (k : String) (entries part : List QueueEntry)
    → has_open k (rows_of (map (collapse_row entries) part)) ≡ true
    → has_open k (rows_of part) ≡ true
unfolding has_open collapse_row expire
never_opens k entries [] h = h
never_opens k entries (q ∷ part) h = ground (arith, h, never_opens k entries part)

pub collapse-has_open :
    (k : String) (entries : List QueueEntry)
    → has_open k (rows_of (collapse entries)) ≡ has_open k (rows_of entries)
unfolding collapse
collapse-has_open k entries = elim (Bool-cases (has_open k (rows_of entries))) [
  | inl mine ↦ kept_open k entries (latest k entries) (latest-IsLatest k entries) mine ∙ sym mine
  | inr none_left ↦ elim (Bool-cases (has_open k (rows_of (collapse entries)))) [
    | inl opened ↦ absurd (cc (never_opens k entries entries opened, none_left))
    | inr closed ↦ closed ∙ sym none_left
  ]
]
