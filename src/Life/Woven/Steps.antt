-- ===== src/Life/Woven/Steps.antt =====
-- What a claim and the turn of a profile do to each review of the table.
use dost_review_api.Prelude.{
  ◌≡◌, refl, sym, ap, ◌∙◌, some, List, ◌∷◌, arith, Bool-cases, Option-cases, inl, inr,
}
use dost_review_api.Models.{Uuid}
use dost_review_api.Review.{find}
use dost_review_api.Review.Laws.{HasUniqueIds}
use dost_review_api.Batch.Database.{Db, elem}
use dost_review_api.Batch.Claim.{Group, claimed_ids, mark_processing}
use dost_review_api.Batch.Engine.{Settings, Env, Work, ids_of, claimed_work, process_profile}
use dost_review_api.Batch.Held.{group_ids}
use dost_review_api.Batch.Chosen.{not-elem-find}
use dost_review_api.Batch.Keeps.{process_profile-keeps}
use dost_review_api.Batch.Updates.{elem-append}
use dost_review_api.Batch.Others.{process_profile-Same}
use dost_review_api.Batch.Advances.{stored_claim}
use dost_review_api.Batch.Ids.{claim-ids, fail_row-ids, commit-ids, unique-ids, absent-ids}
use dost_review_api.Life.{Life}
use dost_review_api.Life.Laws.{Life-refl, Life-eq, gated-Life, processing-Life, Kept}
use dost_review_api.Life.Claimed.{IsLive, fail_row-IsLive, commit-IsLive, taken-is_gated}
use dost_review_api.Life.Woven.Holds.{HoldsGroups, held-live}

claim-Life :
    (settings : Settings) (env : Env) (id : Uuid) (db : Db) (k : Uuid)
    → HasUniqueIds db.reviews
    → Life (find k db.reviews) (find k (claimed_work settings env id db).db.reviews)
claim-Life settings env id db k unique = elim (Option-cases (find k db.reviews)) [
  | inl gone ↦ Life-eq (find k db.reviews) _ (
      absent-ids k (claimed_work settings env id db).db.reviews
        (ap (elem k) (claim-ids settings env id db) ∙ not-elem-find k db.reviews gone)
      ∙ sym gone)
  | inr (r, stored) ↦
      unfold claimed_work in
      elim (Bool-cases
        (elem k (claimed_ids env.locked settings.max_reviews_per_batch db.reviews))) [
          | inl is ↦
              rw (stored_claim settings env id db k r unique stored, is, stored)
                (gated-Life r (mark_processing id r)
                  (taken-is_gated settings env id db k r unique stored is)
                  (unfold mark_processing in refl))
          | inr other ↦
              rw (stored_claim settings env id db k r unique stored, other, stored)
                (Life-refl (some r))
        ]
]

pub claim-Kept :
    (settings : Settings) (env : Env) (id : Uuid) (db : Db)
    → Kept db.reviews (claimed_work settings env id db).db.reviews
claim-Kept settings env id db unique = (
  unique-ids db.reviews (claimed_work settings env id db).db.reviews (claim-ids settings env id db)
      unique,
  (λ k. claim-Life settings env id db k unique),
)

module _ (settings : Settings) (env : Env) (id : Uuid) (group : Group) (groups : List Group)
    (w : Work) (holds : HoldsGroups id w.db.reviews (group ∷ groups)) where
  turn-Life :
      (k : Uuid)
      → Life (find k w.db.reviews) (find k (process_profile settings env group w).1.db.reviews)
  turn-Life k = elim (Bool-cases (elem k (ids_of group.1))) [
    | inl mine ↦
        let (r, at, held) =
          holds.1 k (rw (elem-append k (ids_of group.1) (group_ids groups), mine) refl) in
        let (s, at', live) =
          process_profile-keeps settings env (IsLive k) (fail_row-IsLive settings env k)
            (commit-IsLive settings env k) group w (r, at, held-live id r held) in
        rw (at, at') (processing-Life r s (ground arith) live)
    | inr other ↦
        Life-eq (find k w.db.reviews) _ (process_profile-Same settings env k group w other)
  ]

  pub turn-Kept : Kept w.db.reviews (process_profile settings env group w).1.db.reviews
  turn-Kept unique = (
    unique-ids w.db.reviews (process_profile settings env group w).1.db.reviews
        (process_profile-keeps settings env (λ v. ids_of v.db.reviews ≡ ids_of w.db.reviews)
          (fail_row-ids settings env (ids_of w.db.reviews))
          (commit-ids settings env (ids_of w.db.reviews)) group w refl)
        unique,
    turn-Life,
  )
