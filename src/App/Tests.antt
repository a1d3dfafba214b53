-- ===== src/App/Tests.antt =====
-- Starts of the process, and loads of the engine.
use dost_review_api.Prelude.{
  ℕ, suc, true, false, ◌≡◌, refl, sym, ap, none, some, [], ◌∷◌, arith, All,
}
use dost_review_api.Review.{gated, is_processing, find}
use dost_review_api.Batch.Database.{Db}
use dost_review_api.Batch.Engine.{finished}
use dost_review_api.Batch.Fixture.{held_row, db, renv}
use dost_review_api.Batch.Runner.{requeue_raises, stale_ids, is_stale, sweep_stale_batches}
use dost_review_api.Batch.Orphans.{runs_on}
use dost_review_api.App.Pools.{
  no_pools, create_pool, insert_by_name, sort_by_name, execute_all, run_migrations,
}
use dost_review_api.App.Scheduler.{settled, start_added, start_scheduler}
use dost_review_api.App.Lifespan.{
  Config, default_config, Process, Outside, next, set_api_key, open_pool, migrate, open_onboard,
  sweep, start_jobs, startup,
}
use dost_review_api.App.Start.{DiffersInOnboard, with_onboard, startup-Onboard}
use dost_review_api.App.Rescue.{LeavesBatches, IsCrashed, startup-rescues}

abbrev config : Config
config = record default_config { onboard_database_url = "onboard" }

abbrev process : Process ℕ
process = record { api_key = none; pools = no_pools; db = db; scheduler = 0 }

-- The scheduler is a count of its jobs; the one migration changes the reputations alone.
abbrev outside : Outside ℕ
outside = record {
  driver = record { connects = λ p. true; closes = λ p. true; answers = λ p. true };
  migrations = record { name = "001"; execute = λ d. some (record d { reputations = [] }) } ∷ [];
  runner = renv;
  scheduler_api = record {
    add_job = λ job n. some (suc n);
    start = λ n. some n;
    shutdown = λ n. some n;
  };
}

startup-Onboard_example :
    DiffersInOnboard
      (startup (with_onboard (λ p. true) outside) config process)
      (startup (with_onboard (λ p. false) outside) config process)
startup-Onboard_example = startup-Onboard outside config (λ p. true) (λ p. false) process

some_injective : (a b : Db) → some a ≡ some b → a ≡ b
some_injective a b e = cc

leaves :
    LeavesBatches (record { name = "001"; execute = λ d. some (record d { reputations = [] }) })
leaves d after e =
    let same : record d { reputations = [] } ≡ after =
      some_injective (record d { reputations = [] }) after e in
    (sym (ap (λ (x : Db). x.reviews) same), sym (ap (λ (x : Db). x.runs) same))

crashed : IsCrashed renv db
unfolding is_stale runs_on
crashed = record { owned = ground arith; stale = ground arith }

starts : (startup outside config process).0 ≡ finished
unfolding startup next set_api_key open_pool create_pool migrate run_migrations execute_all
    sort_by_name insert_by_name open_onboard sweep sweep_stale_batches start_jobs start_scheduler
    start_added settled requeue_raises stale_ids is_stale
starts = refl

startup-rescues_example :
    (find "r3" (startup outside config process).1.db.reviews
      ≡ some (record held_row { status = gated }))
    × All (λ r. is_processing r.status ≡ false) (startup outside config process).1.db.reviews
unfolding find
startup-rescues_example =
    startup-rescues outside config process "r3" held_row (leaves, tt) crashed starts refl
