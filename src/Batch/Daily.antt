-- ===== src/Batch/Daily.antt =====
-- Daily runs by `execute_batch`, one after another: how many of them a waiting review may need.
use dost_review_api.Prelude.{
  ℕ, suc, ◌+◌, ◌≤◌, ◌<◌, ◌==◌, ◌≡◌, refl, subst, true, false, some, List, [], ◌∷◌, arith, count,
  length, All, Bool-cases, inl, inr,
}
use dost_review_api.Models.{Uuid}
use dost_review_api.Review.{Row, is_gated, find, is_processing}
use dost_review_api.Review.Laws.{HasUniqueIds}
use dost_review_api.Batch.Database.{Db}
use dost_review_api.Batch.Engine.{Settings}
use dost_review_api.Batch.Runner.{is_running, execute_batch}
use dost_review_api.Batch.Retries.{is_open, IsBounded}
use dost_review_api.Batch.Updates.{All-found, All-mono, All-both}
use dost_review_api.Batch.Drain.{Patient, Ready}
use dost_review_api.Batch.Waiting.{waits}
use dost_review_api.Batch.Day.{IsIdle, Day, run_daily, IsHealthy, day-IsIdle, day-Ready}

some_injective : (s r : Row) → some s ≡ some r → s ≡ r
some_injective s r e = cc

-- Below the limit and past it at once: nothing is open any more.
Ready-closed :
    (settings : Settings) (i : ℕ) (rows : List Row)
    → Ready settings i rows
    → settings.max_review_retries ≤ i
    → All (λ r. is_open r.status ≡ false) rows
Ready-closed settings i rows ready enough =
    All-mono
      (λ r.
        (is_open r.status ≡ true → r.retry_count < settings.max_review_retries)
        × (find r.id rows ≡ some r))
      (λ r. is_open r.status ≡ false) rows (λ r h. closed r h.0 (ready.3 r.id r h.1))
      (All-both (λ r. is_open r.status ≡ true → r.retry_count < settings.max_review_retries)
        (λ r. find r.id rows ≡ some r) rows ready.1 (All-found rows ready.0))
  where
    closed :
        (r : Row)
        → (is_open r.status ≡ true → r.retry_count < settings.max_review_retries)
        → Patient i r
        → is_open r.status ≡ false
    closed r below patient = elim (Bool-cases (is_gated r.status)) [
      | inl w ↦ absurd (omega (arith, below (rw w refl), patient.1 w, enough))
      | inr w ↦ rw (w, patient.0) refl
    ]

All-at :
    (Q : Row → Type 0) (k : Uuid) (r : Row) (rows : List Row)
    → All Q rows
    → find k rows ≡ some r
    → Q r
unfolding find
All-at Q k r [] h e = cc
All-at Q k r (s ∷ rows) h e = elim (Bool-cases (s.id == k)) [
  | inl same ↦ subst Q (some_injective s r (rw same at e)) h.0
  | inr other ↦ All-at Q k r rows h.1 (rw other at e)
]

run_daily-Ready :
    (settings : Settings) (i : ℕ) (days : List Day) (db : Db)
    → All IsHealthy days
    → IsIdle db.runs
    → Ready settings i db.reviews
    → Ready settings (length days + i) (run_daily settings days db).reviews
unfolding run_daily
run_daily-Ready settings i [] db healthy idle ready =
    subst (λ (n : ℕ). Ready settings n db.reviews) (omega arith) ready
run_daily-Ready settings i (d ∷ days) db healthy idle ready =
    subst (λ (n : ℕ). Ready settings n (run_daily settings (d ∷ days) db).reviews) (omega arith)
      (run_daily-Ready settings (suc i) days (execute_batch settings d.env d.runner d.fresh db).1
        healthy.1 (day-IsIdle settings d db healthy.0 idle)
        (day-Ready settings d db healthy.0 idle i ready))

-- As many healthy daily runs of `execute_batch` as the limit of retries leave no review that is still to
-- be processed, whatever the engine replies: from a table with unique ids and no run going on, in which no
-- review is PROCESSING, every open one has failed fewer times than the limit, and the GATED ones fit into
-- one run. On a healthy day the requeue of the sweep, the claim, the updates of failed reviews and the
-- statement that closes the run go through, the engine loads, and no row is locked; the load and the
-- commit of a profile may raise.
pub run_daily-drains :
    (settings : Settings) (days : List Day) (db : Db)
    → All IsHealthy days
    → All (λ b. is_running b.status ≡ false) db.runs
    → HasUniqueIds db.reviews
    → IsBounded settings.max_review_retries db.reviews
    → All (λ r. is_processing r.status ≡ false) db.reviews
    → count waits db.reviews ≤ settings.max_reviews_per_batch
    → settings.max_review_retries ≤ length days
    → All (λ r. is_open r.status ≡ false) (run_daily settings days db).reviews
run_daily-drains settings days db healthy idle unique bounded left fits enough =
    Ready-closed settings (length days + 0) (run_daily settings days db).reviews
      (run_daily-Ready settings 0 days db healthy idle (
        unique,
        bounded,
        fits,
        (λ k r e. (
          All-at (λ r. is_processing r.status ≡ false) k r db.reviews left e,
          (λ w. omega arith),
        )),
      ))
      (omega (arith, enough))
