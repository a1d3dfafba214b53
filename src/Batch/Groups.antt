-- ===== src/Batch/Groups.antt =====
-- The grouping of the claimed rows, against a description of it.
use mathlib.Core.List.{append_assoc, append-nil}
use dost_review_api.Prelude.{
  ◌==◌, eq_iff, eq_refl, ◌≡◌, refl, sym, ap, ◌∙◌, Bool, true, false, List, [], ◌∷◌, ◌++◌, map,
  arith, keep, if◌then◌else◌, Bool-cases, inl, inr,
}
use dost_review_api.Models.{Uuid}
use dost_review_api.Review.{Row}
use dost_review_api.Batch.Database.{elem}
use dost_review_api.Batch.Claim.{Group, add_to_group, group_onto, group_by_profile}
use dost_review_api.Batch.Updates.{elem-append}

-- The rows of a profile.
abbrev pub rows_of : List Row → Uuid → List Row
rows_of rows k = keep (λ r. r.target_profile_id == k) rows

-- The profiles in the order in which they first appear, less those that have been seen.
pub first_seen : List Uuid → List Row → List Uuid
first_seen seen [] = []
first_seen seen (r ∷ rows) =
    if elem r.target_profile_id seen
    then first_seen seen rows
    else r.target_profile_id ∷ first_seen (seen ++ r.target_profile_id ∷ []) rows

abbrev extended : List Row → List Group → List Group
extended rows groups = map (λ g. (g.0, g.1 ++ rows_of rows g.0)) groups

abbrev new_groups : List Row → List Uuid → List Group
new_groups rows ks = map (λ k. (k, rows_of rows k)) ks

abbrev keys : List Group → List Uuid
keys groups = map (λ g. g.0) groups

abbrev HasUniqueKeys : List Group → Type 0
HasUniqueKeys [] = Unit
HasUniqueKeys (g ∷ groups) = (elem g.0 (keys groups) ≡ false) × HasUniqueKeys groups

new_groups-seen :
    (r : Row) (all rows : List Row) (seen : List Uuid)
    → elem r.target_profile_id seen ≡ true
    → new_groups (r ∷ all) (first_seen seen rows) ≡ new_groups all (first_seen seen rows)
unfolding first_seen
new_groups-seen r all [] seen h = refl
new_groups-seen r all (s ∷ rows) seen h = elim (Bool-cases (elem s.target_profile_id seen)) [
  | inl e ↦ rw e (new_groups-seen r all rows seen h)
  | inr e ↦
      let other : (r.target_profile_id == s.target_profile_id) ≡ false =
        ground (arith, h, e, eq_iff r.target_profile_id s.target_profile_id) in
      rw (e, other)
        (ap (λ (gs : List Group). (s.target_profile_id, rows_of all s.target_profile_id) ∷ gs)
          (new_groups-seen r all rows (seen ++ s.target_profile_id ∷ [])
            (rw (elem-append r.target_profile_id seen (s.target_profile_id ∷ []), h) refl)))
]

swap_test : (a b : Uuid) → (a == b) ≡ (b == a)
swap_test a b = ground (arith, eq_iff a b, eq_iff b a)

extended-nil : (groups : List Group) → extended [] groups ≡ groups
extended-nil [] = refl
extended-nil ((k, rows) ∷ groups) =
    rw (append-nil rows) (ap (λ (gs : List Group). (k, rows) ∷ gs) (extended-nil groups))

keys-add :
    (r : Row) (groups : List Group)
    → keys (add_to_group r groups) ≡ (
        if elem r.target_profile_id (keys groups)
        then keys groups
        else keys groups ++ r.target_profile_id ∷ [])
unfolding add_to_group elem
keys-add r [] = refl
keys-add r ((k, rs) ∷ groups) = ground (arith, keys-add r groups)

elem-keys-add :
    (k : Uuid) (r : Row) (groups : List Group)
    → (k == r.target_profile_id) ≡ false
    → elem k (keys groups) ≡ false
    → elem k (keys (add_to_group r groups)) ≡ false
unfolding add_to_group elem
elem-keys-add k r [] ne h = rw (swap_test r.target_profile_id k) (rw ne refl)
elem-keys-add k r ((j, rs) ∷ groups) ne h = ground (arith, elem-keys-add k r groups ne, h)

add-HasUniqueKeys :
    (r : Row) (groups : List Group) → HasUniqueKeys groups → HasUniqueKeys (add_to_group r groups)
unfolding add_to_group elem
add-HasUniqueKeys r [] u = (refl, tt)
add-HasUniqueKeys r ((k, rs) ∷ groups) u = elim (Bool-cases (k == r.target_profile_id)) [
  | inl e ↦ rw e u
  | inr e ↦ rw e (elem-keys-add k r groups e u.0, add-HasUniqueKeys r groups u.1)
]

extended-absent :
    (r : Row) (rows : List Row) (groups : List Group)
    → elem r.target_profile_id (keys groups) ≡ false
    → extended (r ∷ rows) groups ≡ extended rows groups
unfolding elem
extended-absent r rows [] h = refl
extended-absent r rows ((k, rs) ∷ groups) h =
    let other : (k == r.target_profile_id) ≡ false = ground (arith, h) in
    rw (swap_test r.target_profile_id k, other)
      (ap (λ (gs : List Group). (k, rs ++ rows_of rows k) ∷ gs)
        (extended-absent r rows groups (rw other at h)))

-- The group that a row opens, if none of its profile is there.
abbrev opened : Row → List Row → Bool → List Group
opened r rows true = []
opened r rows false = (r.target_profile_id, r ∷ rows_of rows r.target_profile_id) ∷ []

extended-add :
    (r : Row) (rows : List Row) (groups : List Group)
    → HasUniqueKeys groups
    → extended rows (add_to_group r groups)
      ≡ extended (r ∷ rows) groups ++ opened r rows (elem r.target_profile_id (keys groups))
unfolding elem add_to_group
extended-add r rows [] u = refl
extended-add r rows ((k, rs) ∷ groups) u = elim (Bool-cases (k == r.target_profile_id)) [
  | inl e ↦
      let key : k ≡ r.target_profile_id = (eq_iff k r.target_profile_id).0 e in
      rw (swap_test r.target_profile_id k) (
        rw (e, append_assoc, append-nil)
          (ap (λ (gs : List Group). (k, rs ++ r ∷ rows_of rows k) ∷ gs)
            (sym (extended-absent r rows groups (rw key at u.0)))))
  | inr e ↦ rw (swap_test r.target_profile_id k) (
      rw (e, elem, opened)
        (ap (λ (gs : List Group). (k, rs ++ rows_of rows k) ∷ gs) (extended-add r rows groups u.1)))
]

opened-first_seen :
    (r : Row) (rows : List Row) (seen : List Uuid) (e : Bool)
    → elem r.target_profile_id seen ≡ e
    → opened r rows e
        ++ new_groups rows (first_seen (if e then seen else seen ++ r.target_profile_id ∷ []) rows)
      ≡ new_groups (r ∷ rows) (first_seen seen (r ∷ rows))
unfolding first_seen
opened-first_seen r rows seen true is = rw is (sym (new_groups-seen r rows rows seen is))
opened-first_seen r rows seen false is =
    rw (is, eq_refl r.target_profile_id)
      (ap (λ (gs : List Group). (r.target_profile_id, r ∷ rows_of rows r.target_profile_id) ∷ gs)
        (sym (
          new_groups-seen r rows rows (seen ++ r.target_profile_id ∷ []) (
            rw (elem-append r.target_profile_id seen (r.target_profile_id ∷ []), is)
              (unfold elem in rw (eq_refl r.target_profile_id) refl)))))

group_onto-extends :
    (rows : List Row) (groups : List Group)
    → HasUniqueKeys groups
    → group_onto groups rows
      ≡ extended rows groups ++ new_groups rows (first_seen (keys groups) rows)
unfolding group_onto
group_onto-extends [] groups u =
    unfold first_seen in sym (append-nil (extended [] groups) ∙ extended-nil groups)
group_onto-extends (r ∷ rows) groups u =
    group_onto-extends rows (add_to_group r groups) (add-HasUniqueKeys r groups u)
    ∙ rw (extended-add r rows groups u, keys-add r groups, append_assoc)
        (ap (λ (gs : List Group). extended (r ∷ rows) groups ++ gs)
          (opened-first_seen r rows (keys groups) (elem r.target_profile_id (keys groups)) refl))

-- The rows are grouped as a description of one line has it: the profiles in the order in which they first
-- appear, each with all its rows in their order.
pub group_by_profile-first_seen :
    (rows : List Row)
    → group_by_profile rows
      ≡ map (λ k. (k, keep (λ r. r.target_profile_id == k) rows)) (first_seen [] rows)
unfolding group_by_profile
group_by_profile-first_seen rows = group_onto-extends rows [] tt
