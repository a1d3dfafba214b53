-- ===== src/Life/Woven/Holds.antt =====
-- The reviews that a run still has to process are PROCESSING under its id, whatever happens in between.
use dost_review_api.Prelude.{
  ◌≤◌, eq_iff, eq_refl, ◌≡◌, refl, sym, ap, ◌∙◌, true, false, ◌&&◌, Option, none, some, List, [],
  ◌∷◌, ◌++◌, arith, keep, Bool-cases, Option-cases, inl, inr,
}
use dost_review_api.Models.{Uuid, DostReview}
use dost_review_api.Review.{Row, is_rejected, is_processing, find, in_batch}
use dost_review_api.Review.Laws.{HasUniqueIds}
use dost_review_api.Gate.Profiles.{Refusal}
use dost_review_api.Gate as Gate
use dost_review_api.Gate.Audit.{find-gate_live, admit-keeps_live}
use dost_review_api.Batch.Database.{Db, elem}
use dost_review_api.Batch.Claim.{
  Group, claim, claimed, claimed_ids, mark_processing, group_by_profile,
}
use dost_review_api.Batch.Engine.{Settings, Env, Work, ids_of, claimed_work, process_profile}
use dost_review_api.Batch.Runner.{in_batches, back_to_gated, requeue}
use dost_review_api.Batch.Held.{is_held, group_ids}
use dost_review_api.Batch.Chosen.{elem-keep-le, find-update, updated, not-elem-find}
use dost_review_api.Batch.Updates.{elem-append}
use dost_review_api.Batch.Taken.{elem-group_onto}
use dost_review_api.Batch.Others.{process_profile-Same}
use dost_review_api.Batch.Advances.{in_groups, stored_claim}
use dost_review_api.Batch.Ids.{claim-ids}
use dost_review_api.Life.Woven.{Phase, started, working, asked, broken, Active}
use dost_review_api.Life.Woven.Distinct.{
  times, times-append, times-onto, times-HasUniqueIds, times-keep, times-elem,
}

abbrev pub IsHeldBy : Uuid → List Row → Uuid → Type 0
IsHeldBy id rows k = (s : Row) × (find k rows ≡ some s) × (is_held id s ≡ true)

abbrev pub HoldsGroups : Uuid → List Row → List Group → Type 0
HoldsGroups id rows groups =
    ((k : Uuid) → times k (group_ids groups) ≤ 1)
    × ((k : Uuid) → elem k (group_ids groups) ≡ true → IsHeldBy id rows k)

abbrev pub HoldsPhase : Uuid → List Row → Phase → Type 0
HoldsPhase id rows started = Unit
HoldsPhase id rows (working groups) = HoldsGroups id rows groups
HoldsPhase id rows (asked group groups input) = HoldsGroups id rows (group ∷ groups)
HoldsPhase id rows broken = Unit

abbrev pub Holds : List Row → Active → Type 0
Holds rows a = HoldsPhase a.id rows a.phase

pub HoldsPhase-mono :
    (id : Uuid) (rows rows' : List Row) (phase : Phase)
    → ((k : Uuid) → IsHeldBy id rows k → IsHeldBy id rows' k)
    → HoldsPhase id rows phase
    → HoldsPhase id rows' phase
HoldsPhase-mono id rows rows' started keeps h = tt
HoldsPhase-mono id rows rows' (working groups) keeps h = (h.0, (λ k m. keeps k (h.1 k m)))
HoldsPhase-mono id rows rows' (asked group groups input) keeps h = (h.0, (λ k m. keeps k (h.1 k m)))
HoldsPhase-mono id rows rows' broken keeps h = tt

pub held-live : (id : Uuid) (s : Row) → is_held id s ≡ true → is_rejected s.status ≡ false
held-live id s h = ground arith

pub gate-IsHeldBy :
    (id : Uuid) (rows : List Row) (settings : Gate.Settings) (env : Gate.Env) (review : DostReview)
    (event_id : Option Uuid) (k : Uuid)
    → env.others rows ≡ rows
    → IsHeldBy id rows k
    → IsHeldBy id (Gate.gate_and_store settings env review event_id rows).1 k
gate-IsHeldBy id rows settings env review event_id k quiet (s, at, held) = (
  s,
  find-gate_live env review event_id k s settings rows at (ap (find k) quiet ∙ at)
      (held-live id s held),
  held,
)

pub admit-IsHeldBy :
    (id : Uuid) (rows : List Row) (settings : Gate.Settings) (env : Gate.Env) (review : DostReview)
    (event_id : Option Uuid) (error : Option Refusal) (k : Uuid)
    → IsHeldBy id rows k
    → IsHeldBy id (Gate.admit settings env review event_id error rows).1 k
admit-IsHeldBy id rows settings env review event_id error k (s, at, held) =
    (s, admit-keeps_live env review event_id k s settings error rows at (held-live id s held), held)

kept_id : (r : Row) → (back_to_gated r).id ≡ r.id
unfolding back_to_gated
kept_id r = refl

other_batch :
    (id : Uuid) (ids : List Uuid) (b : Option Uuid)
    → elem id ids ≡ false
    → in_batch id b ≡ true
    → in_batches ids b ≡ false
unfolding in_batches
other_batch id ids none out on = refl
other_batch id ids (some c) out on = ap (λ (j : Uuid). elem j ids) ((eq_iff c id).0 on) ∙ out

not_requeued :
    (id : Uuid) (ids : List Uuid) (s : Row)
    → elem id ids ≡ false
    → is_held id s ≡ true
    → (is_processing s.status && in_batches ids s.batch_id) ≡ false
not_requeued id ids s out held = ground (arith, other_batch id ids s.batch_id out)

-- The requeue of other runs.
pub requeue-IsHeldBy :
    (id : Uuid) (ids : List Uuid) (rows : List Row) (k : Uuid)
    → elem id ids ≡ false
    → IsHeldBy id rows k
    → IsHeldBy id (requeue ids rows) k
unfolding requeue
requeue-IsHeldBy id ids rows k out (s, at, held) = (
  s,
  find-update (λ r. is_processing r.status && in_batches ids r.batch_id) back_to_gated kept_id k
        rows
      ∙ rw (at, updated) (rw (not_requeued id ids s out held) refl),
  held,
)

-- The turn of a profile whose group the review is not in.
pub turn-IsHeldBy :
    (id : Uuid) (settings : Settings) (env : Env) (group : Group) (w : Work) (k : Uuid)
    → elem k (ids_of group.1) ≡ false
    → IsHeldBy id w.db.reviews k
    → IsHeldBy id (process_profile settings env group w).1.db.reviews k
turn-IsHeldBy id settings env group w k out (s, at, held) =
    (s, process_profile-Same settings env k group w out ∙ at, held)

apart :
    (k : Uuid) (xs ys : List Uuid) → times k (xs ++ ys) ≤ 1 → elem k ys ≡ true → elem k xs ≡ false
apart k xs ys once m = elim (Bool-cases (elem k xs)) [
  | inl n ↦ absurd (omega (arith, once, times-append k xs ys, times-elem k xs n, times-elem k ys m))
  | inr n ↦ n
]

-- After its turn a profile's group is off the list.
pub rest-HoldsGroups :
    (id : Uuid) (settings : Settings) (env : Env) (group : Group) (groups : List Group) (w : Work)
    → HoldsGroups id w.db.reviews (group ∷ groups)
    → HoldsGroups id (process_profile settings env group w).1.db.reviews groups
rest-HoldsGroups id settings env group groups w h = (
  (λ k. omega (arith, h.0 k, times-append k (ids_of group.1) (group_ids groups))),
  (λ k m.
      turn-IsHeldBy id settings env group w k
        (apart k (ids_of group.1) (group_ids groups) (h.0 k) m)
        (h.1 k (rw (elem-append k (ids_of group.1) (group_ids groups)) (ground (arith, m))))),
)

-- A claim of a run.
module _ (settings : Settings) (env : Env) (id : Uuid) (db : Db)
    (unique : HasUniqueIds db.reviews) where
  abbrev groups : List Group
  groups = group_by_profile (claimed env.locked settings.max_reviews_per_batch id db.reviews)

  abbrev taken : List Uuid
  taken = claimed_ids env.locked settings.max_reviews_per_batch db.reviews

  groups_once : (k : Uuid) → times k (group_ids groups) ≤ 1
  unfolding group_by_profile claimed
  groups_once k =
      let rows : List Row = claim env.locked settings.max_reviews_per_batch id db.reviews in
      let same : times k (ids_of rows) ≡ times k (ids_of db.reviews) =
        ap (times k) (unfold claimed_work in claim-ids settings env id db) in
      omega (
        arith,
        times-onto k (keep (λ r. elem r.id taken) rows) [],
        times-keep k (λ r. elem r.id taken) rows,
        same,
        times-HasUniqueIds k db.reviews unique,
      )

  groups-stored : (k : Uuid) → elem k (group_ids groups) ≡ true → elem k (ids_of db.reviews) ≡ true
  unfolding group_by_profile claimed
  groups-stored k m =
      let rows : List Row = claim env.locked settings.max_reviews_per_batch id db.reviews in
      let same : elem k (ids_of rows) ≡ elem k (ids_of db.reviews) =
        ap (elem k) (unfold claimed_work in claim-ids settings env id db) in
      let back : elem k (ids_of (keep (λ r. elem r.id taken) rows)) ≡ true =
        unfold elem in ground (arith, m, elem-group_onto k (keep (λ r. elem r.id taken) rows) []) in
      sym same ∙ elem-keep-le (λ r. elem r.id taken) k rows back

  claimed-IsHeldBy :
      (k : Uuid)
      → elem k (group_ids groups) ≡ true
      → IsHeldBy id (claimed_work settings env id db).db.reviews k
  claimed-IsHeldBy k m = elim (Option-cases (find k db.reviews)) [
    | inl gone ↦ absurd (cc (groups-stored k m, not-elem-find k db.reviews gone))
    | inr (r, stored) ↦
        let is : elem k taken ≡ true = sym (in_groups settings env id db k r unique stored) ∙ m in
        (
          mark_processing id r,
          (unfold claimed_work in stored_claim settings env id db k r unique stored ∙ rw is refl),
          (unfold mark_processing in rw (eq_refl id) refl),
        )
  ]

  pub claim-HoldsGroups : HoldsGroups id (claimed_work settings env id db).db.reviews groups
  claim-HoldsGroups = (groups_once, claimed-IsHeldBy)
