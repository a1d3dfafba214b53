-- ===== src/Batch/Drain.antt =====
-- Runs one after another: how long a review can wait.
use dost_review_api.Prelude.{
  ℕ, suc, ◌≤◌, ◌≡◌, refl, ap, subst, ◌∙◌, Bool, true, false, some, List, arith, count, Bool-cases,
  Option-cases, inl, inr,
}
use dost_review_api.Models.{Uuid}
use dost_review_api.Review.{Row, is_processing, find}
use dost_review_api.Review.Laws.{HasUniqueIds}
use dost_review_api.Batch.Database.{Db, elem}
use dost_review_api.Batch.Claim.{is_claimable, claimed_ids}
use dost_review_api.Batch.Engine.{Settings, Env, Attempt, in_except, run_batch}
use dost_review_api.Batch.Chosen.{find-keep, elem-chosen, not-elem-find}
use dost_review_api.Batch.Retries.{IsBounded, run_batch-IsBounded}
use dost_review_api.Batch.Ids.{run_batch-ids, unique-ids, absent-ids}
use dost_review_api.Batch.Counts.{run_batch-ends}
use dost_review_api.Batch.Progress.{Advanced}
use dost_review_api.Batch.Advances.{Fate, run_batch-Fate}
use dost_review_api.Batch.Waiting.{waits, claims-all, WaitedBefore, count-waits}

-- No review is left over from an earlier run, and one that waits has failed at least `i` times.
abbrev pub Patient : ℕ → Row → Type 0
Patient i r = (is_processing r.status ≡ false) × (waits r ≡ true → i ≤ r.retry_count)

-- What a run begins with: all that waits fits into it, and has waited through `i` runs.
abbrev pub Ready : Settings → ℕ → List Row → Type 0
Ready settings i rows =
    HasUniqueIds rows
    × IsBounded settings.max_review_retries rows
    × (count waits rows ≤ settings.max_reviews_per_batch)
    × ((k : Uuid) (r : Row) → find k rows ≡ some r → Patient i r)

-- A run in which nothing raises and no other transaction holds a lock. The engine may fail.
abbrev pub Healthy : Env → Type 0
Healthy env =
    (env.engine_loads ≡ true)
    × (env.claim_fails ≡ false)
    × ((k : Uuid) → env.locked k ≡ false)
    × ((attempt : Attempt) (k : Uuid) → env.update_fails attempt k ≡ false)

module _ (settings : Settings) (env : Env) (batch_id : Uuid) (db : Db) (i : ℕ)
    (healthy : Healthy env) (ready : Ready settings i db.reviews) where
  abbrev after : List Row
  after = (run_batch settings env batch_id db).1.db.reviews

  abbrev taken : List Uuid
  taken = claimed_ids env.locked settings.max_reviews_per_batch db.reviews

  abbrev Later : Row → Row → Type 0
  Later r s = Patient (suc i) s × (waits s ≡ true → waits r ≡ true)

  claimed-Later :
      (r q : Row) → waits r ≡ true → Patient i r → Advanced settings r.retry_count q → Later r q
  claimed-Later r q w p (inl e) = rw e ((refl, (λ h. absurd (cc h))), (λ h. w))
  claimed-Later r q w p (inr (inl e)) = rw e ((refl, (λ h. absurd (cc h))), (λ h. w))
  claimed-Later r q w p (inr (inr (e, n, below))) =
      rw (e, n) ((refl, (λ h. omega (arith, p.1 w))), (λ h. w))

  untouched-Later : (r : Row) → waits r ≡ false → Patient i r → Later r r
  untouched-Later r idle p = ((p.0, (λ w. absurd (cc (w, idle)))), (λ w. w))

  taken-waits :
      (k : Uuid) (r : Row) → find k db.reviews ≡ some r → elem k taken ≡ true → waits r ≡ true
  taken-waits k r stored is =
      let claimable : is_claimable env.locked r ≡ true =
        find-keep (is_claimable env.locked) k db.reviews r ready.0 stored
          (elem-chosen env.locked settings.max_reviews_per_batch k db.reviews is) in
      unfold is_claimable in ground (arith, claimable)

  stored-Later :
      (k : Uuid) (r s : Row) (e : Bool)
      → elem k taken ≡ e
      → find k db.reviews ≡ some r
      → find k after ≡ some s
      → Fate settings k r e after
      → Later r s
  stored-Later k r s true is stored at (q, found, advanced) =
      let same : q ≡ s = cc in
      rw same at (claimed-Later r q (taken-waits k r stored is) (ready.3 k r stored) advanced)
  stored-Later k r s false is stored at kept =
      let same : r ≡ s = cc in
      let idle : waits r ≡ false = elim (Bool-cases (waits r)) [
        | inl w ↦ absurd (
            cc (
              is,
              claims-all env.locked settings.max_reviews_per_batch k db.reviews r healthy.2 ready.2
                  stored w,
            ))
        | inr w ↦ w
      ] in
      subst (λ (q : Row). Later r q) same (untouched-Later r idle (ready.3 k r stored))

  row-Later :
      (k : Uuid) (s : Row)
      → find k after ≡ some s
      → (r : Row) × (find k db.reviews ≡ some r) × Later r s
  row-Later k s at = elim (Option-cases (find k db.reviews)) [
    | inl gone ↦ absurd (
        cc (
          at,
          absent-ids k after (
              ap (elem k) (run_batch-ids settings env batch_id db)
              ∙ not-elem-find k db.reviews gone),
        ))
    | inr (r, stored) ↦ (
      r,
      stored,
      stored-Later k r s (elem k taken) refl stored at (
          run_batch-Fate settings env batch_id db k r ready.0 stored healthy.3
            (run_batch-ends settings env batch_id db healthy.0 healthy.1 (healthy.3 in_except))),
    )
  ]

  was_waiting : WaitedBefore db.reviews after
  was_waiting k s at w = let (r, stored, later) = row-Later k s at in rw stored (later.1 w)

  pub after-Ready : Ready settings (suc i) after
  after-Ready = (
    unique-ids db.reviews after (run_batch-ids settings env batch_id db) ready.0,
    run_batch-IsBounded settings env batch_id db ready.0 ready.1,
    omega (
      arith,
      count-waits db.reviews after (run_batch-ids settings env batch_id db) ready.0 was_waiting,
      ready.2,
    ),
    (λ k s at. let (r, stored, later) = row-Later k s at in later.0),
  )
