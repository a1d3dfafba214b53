-- ===== src/Batch/Tests.antt =====
-- Runs over the table of the fixture.
use mathlib.Core.List.{Perm}
use dost_review_api.Prelude.{
  ◌≤◌, ◌+◌, Bool, true, false, ◌==◌, eq_iff, ◌≡◌, refl, some, List, [], ◌∷◌, ◌++◌, arith, length,
  keep, map, All,
}
use dost_review_api.Models.{Uuid}
use dost_review_api.Review.{Row, is_gated, find}
use dost_review_api.Review.Laws.{HasUniqueIds}
use dost_review_api.Batch.Database.{Db, elem, Reply, engine_error}
use dost_review_api.Batch.Claim.{is_claimable, chosen, claimed_ids, claimed, group_by_profile}
use dost_review_api.Batch.Engine.{
  Attempt, in_try, in_except, Env, finished, process_profile, run_batch,
}
use dost_review_api.Batch.Runner.{is_stale, sweep_stale_batches, start_batch}
use dost_review_api.Batch.Fixture.{
  settings, first_row, second_row, held_row, rows, db, work, env, renv,
}
use dost_review_api.Batch.Held.{IsSettled}
use dost_review_api.Batch.Taken.{IsFresh}
use dost_review_api.Batch.Settled.{run_batch-IsSettled}
use dost_review_api.Batch.Counts.{run_batch-ends}
use dost_review_api.Batch.Tally.{is_committed, is_failed, tally}
use dost_review_api.Batch.Tallied.{run_batch-tallies}
use dost_review_api.Batch.Order.{chosen_oldest}
use dost_review_api.Batch.Retries.{is_open, IsBounded, run_batch-IsBounded}
use dost_review_api.Batch.Results.{Outcome, process_profile-atomic}
use dost_review_api.Batch.Advances.{Fate, run_batch-Fate}
use dost_review_api.Batch.Daily.{run_daily-drains}
use dost_review_api.Batch.Day.{Day, IsHealthy, run_daily}
use dost_review_api.Batch.Groups.{first_seen, group_by_profile-first_seen}
use dost_review_api.Batch.Single.{Started, start_batch-Started, sweep_all, sweep_loses}

-- The second update of the `try` raises.
abbrev fails_on_second : Attempt → Uuid → Bool
fails_on_second in_try k = k == "r2"
fails_on_second in_except k = false

abbrev refusing : Env
refusing = record env {
  process_reputation = λ input. engine_error (some false);
  update_fails = fails_on_second;
}

fresh : IsFresh "b1" rows
fresh = ground (arith, eq_iff "b0" "b1")

unique : HasUniqueIds rows
unfolding find
unique = ground (arith, eq_iff "r1" "r2", eq_iff "r1" "r3", eq_iff "r2" "r3")

bounded : IsBounded 3 rows
bounded = ground arith

ends : (run_batch settings env "b1" db).0 ≡ finished
ends = run_batch-ends settings env "b1" db refl refl (λ k. refl)

run_batch-ends_example : (run_batch settings env "b1" db).0 ≡ finished
run_batch-ends_example = run_batch-ends settings env "b1" db refl refl (λ k. refl)

run_batch-IsSettled_example : IsSettled "b1" (run_batch settings env "b1" db).1.db.reviews
run_batch-IsSettled_example = run_batch-IsSettled settings env "b1" db fresh ends

run_batch-tallies_example :
    let stats = (run_batch settings env "b1" db).1.stats in
    let after = (run_batch settings env "b1" db).1.db.reviews in
    (stats.total_reviews ≡ length (claimed (λ k. false) 2 "b1" rows))
    × (stats.committed ≡ tally is_committed "b1" after)
    × (stats.failed ≡ tally is_gated "b1" after)
    × (stats.dead_lettered ≡ tally is_failed "b1" after)
    × (stats.committed + stats.failed + stats.dead_lettered ≡ stats.total_reviews)
run_batch-tallies_example = run_batch-tallies settings env "b1" db unique fresh (λ k. refl) ends

chosen_oldest_example :
    (length (chosen (λ k. false) 1 rows) ≡ 1)
    × ((left : List Row) × Perm
          (chosen (λ k. false) 1 rows ++ left)
          (keep (is_claimable (λ k. false)) rows)
        × All (λ r. All (λ s. r.received_at ≤ s.received_at) left) (chosen (λ k. false) 1 rows))
unfolding is_claimable
chosen_oldest_example = chosen_oldest (λ k. false) 1 rows

run_batch-IsBounded_example : IsBounded 3 (run_batch settings refusing "b1" db).1.db.reviews
run_batch-IsBounded_example = run_batch-IsBounded settings refusing "b1" db unique bounded

process_profile-atomic_example :
    Outcome settings env
      ("p1", first_row ∷ second_row ∷ [])
      work
      (process_profile settings env ("p1", first_row ∷ second_row ∷ []) work).1
process_profile-atomic_example =
    process_profile-atomic settings env ("p1", first_row ∷ second_row ∷ []) work

start_batch-Started_example : Started "b1" db (start_batch renv "b1" db)
start_batch-Started_example = start_batch-Started renv "b1" db

sweep_loses_example :
    find "r3"
      (sweep_all
        (renv ∷ renv ∷ [])
        (sweep_stale_batches (record renv { sweep_requeue_fails = true }) db).1).reviews
    ≡ some held_row
unfolding find is_stale
sweep_loses_example =
    sweep_loses (record renv { sweep_requeue_fails = true }) (renv ∷ renv ∷ []) db "r3" "b0"
      held_row refl refl refl (ground arith)

run_batch-Fate_example :
    Fate settings "r1" first_row
      (elem "r1" (claimed_ids (λ k. false) 2 rows))
      (run_batch settings env "b1" db).1.db.reviews
unfolding find
run_batch-Fate_example =
    run_batch-Fate settings env "b1" db "r1" first_row unique refl (λ attempt k. refl) ends

-- The engine raises every day.
abbrev day : Day
day = record {
  env = record env { process_reputation = λ input. Reply.raises };
  runner = renv;
  fresh = "b1";
}

abbrev waiting : Db
waiting = record { reviews = first_row ∷ second_row ∷ []; reputations = []; runs = [] }

two_unique : HasUniqueIds waiting.reviews
unfolding find
two_unique = ground (arith, eq_iff "r1" "r2")

healthy : IsHealthy day
healthy = ((refl, refl, (λ k. refl), (λ attempt k. refl)), refl, refl)

run_daily-drains_example :
    All (λ r. is_open r.status ≡ false) (run_daily settings (day ∷ day ∷ day ∷ []) waiting).reviews
run_daily-drains_example =
    run_daily-drains settings (day ∷ day ∷ day ∷ []) waiting (healthy, (healthy, (healthy, tt))) tt
      two_unique (ground arith) (refl, (refl, tt)) (omega arith) (omega arith)

group_by_profile-first_seen_example :
    group_by_profile rows
    ≡ map (λ k. (k, keep (λ r. r.target_profile_id == k) rows)) (first_seen [] rows)
group_by_profile-first_seen_example = group_by_profile-first_seen rows
