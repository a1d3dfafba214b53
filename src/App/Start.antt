-- ===== src/App/Start.antt =====
-- A start of the process with Onboard and without it.
use dost_review_api.Prelude.{Bool, ◌==◌, ◌≡◌, refl, ap, arith, Bool-cases, inl, inr, if◌then◌else◌}
use dost_review_api.Batch.Engine.{Ended, finished, raised}
use dost_review_api.Batch.Runner.{sweep_stale_batches}
use dost_review_api.App.Pools.{Pool, primary_pool, create_pool, create_onboard_pool, run_migrations}
use dost_review_api.App.Scheduler.{start_scheduler}
use dost_review_api.App.Lifespan.{
  Config, Process, Outside, Command, next, ◌>>◌, set_api_key, open_pool, migrate, open_onboard,
  sweep, start_jobs, startup,
}

-- The two starts end alike, and differ in the pool of Onboard at most.
pub record DiffersInOnboard {S : Type 0} (a b : Ended × Process S) : Type 0 where
  pub ended : a.0 ≡ b.0
  pub api_key : a.1.api_key ≡ b.1.api_key
  pub pool : a.1.pools.pool ≡ b.1.pools.pool
  pub db : a.1.db ≡ b.1.db
  pub scheduler : a.1.scheduler ≡ b.1.scheduler

-- The same outside, but for whether a connection to Onboard, which is read-only, is made.
abbrev pub with_onboard : {S : Type 0} → (Pool → Bool) → Outside S → Outside S
with_onboard connects outside = record outside {
  driver = record outside.driver {
    connects = λ p. if p.read_only then connects p else outside.driver.connects p;
  };
}

module _ {S : Type 0} where
  next-Differs :
      (m n : Command S) (a b : Ended × Process S)
      → ((p q : Process S)
          → DiffersInOnboard (finished, p) (finished, q)
          → DiffersInOnboard (m p) (n q))
      → DiffersInOnboard a b
      → DiffersInOnboard (next m a) (next n b)
  unfolding next
  next-Differs m n (finished, p) (finished, q) h d = h p q d
  next-Differs m n (finished, p) (raised, q) h d = cc (d.ended)
  next-Differs m n (raised, p) (finished, q) h d = cc (d.ended)
  next-Differs m n (raised, p) (raised, q) h d = d

  -- The commands keep that two processes differ in the pool of Onboard at most.
  abbrev Alike : Command S → Command S → Type 0
  Alike m n =
      (p q : Process S)
      → DiffersInOnboard (finished, p) (finished, q)
      → DiffersInOnboard (m p) (n q)

  seq-Alike : (m n k l : Command S) → Alike m n → Alike k l → Alike (m >> k) (n >> l)
  seq-Alike m n k l first second p q d = next-Differs k l (m p) (n q) second (first p q d)

  migrate-Alike : (outside : Outside S) → Alike (migrate outside) (migrate outside)
  unfolding migrate
  migrate-Alike outside p q d = record {
    ended = ap (λ db. (run_migrations outside.migrations db).0) d.db;
    api_key = d.api_key;
    pool = d.pool;
    db = ap (λ db. (run_migrations outside.migrations db).1) d.db;
    scheduler = d.scheduler;
  }

  open_onboard-Alike :
      (outside other : Outside S) (config : Config)
      → Alike (open_onboard outside config) (open_onboard other config)
  unfolding open_onboard create_onboard_pool
  open_onboard-Alike outside other config p q d =
      elim (Bool-cases (config.onboard_database_url == "")) [
        | inl e ↦ rw e d
        | inr e ↦ rw e (ground (arith, d.api_key, d.pool, d.db, d.scheduler))
      ]

  sweep-Alike : (outside : Outside S) → Alike (sweep outside) (sweep outside)
  unfolding sweep
  sweep-Alike outside p q d = record {
    ended = ap (λ db. (sweep_stale_batches outside.runner db).0) d.db;
    api_key = d.api_key;
    pool = d.pool;
    db = ap (λ db. (sweep_stale_batches outside.runner db).1) d.db;
    scheduler = d.scheduler;
  }

  start_jobs-Alike :
      (outside : Outside S) (config : Config)
      → Alike (start_jobs outside config) (start_jobs outside config)
  unfolding start_jobs
  start_jobs-Alike outside config p q d = record {
    ended =
        ap (λ s. (start_scheduler outside.scheduler_api config.batch_cadence_cron s).0) d.scheduler;
    api_key = d.api_key;
    pool = d.pool;
    db = d.db;
    scheduler =
        ap (λ s. (start_scheduler outside.scheduler_api config.batch_cadence_cron s).1) d.scheduler;
  }

  same_Differs : (a : Ended × Process S) → DiffersInOnboard a a
  same_Differs a = record { ended = refl; api_key = refl; pool = refl; db = refl; scheduler = refl }

-- Whether Onboard can be reached or not changes nothing of a start but the pool of Onboard: the start ends
-- alike, with the same database, pool and scheduler.
pub startup-Onboard :
    {S : Type 0} (outside : Outside S) (config : Config) (connects connects' : Pool → Bool)
    (p : Process S)
    → DiffersInOnboard
        (startup (with_onboard connects outside) config p)
        (startup (with_onboard connects' outside) config p)
unfolding startup set_api_key open_pool create_pool primary_pool migrate sweep start_jobs next
    open_onboard run_migrations
startup-Onboard {S = S} outside config connects connects' p =
    let a = with_onboard connects outside in
    let b = with_onboard connects' outside in
    let begun : Process S = (set_api_key config p).1 in
    next-Differs
      (migrate outside >> (open_onboard a config >> (sweep outside >> start_jobs outside config)))
      (migrate outside >> (open_onboard b config >> (sweep outside >> start_jobs outside config)))
      (open_pool outside config begun) (open_pool outside config begun)
      (seq-Alike (migrate outside) (migrate outside)
        (open_onboard a config >> (sweep outside >> start_jobs outside config))
        (open_onboard b config >> (sweep outside >> start_jobs outside config))
        (migrate-Alike outside)
        (seq-Alike (open_onboard a config) (open_onboard b config)
          (sweep outside >> start_jobs outside config) (sweep outside >> start_jobs outside config)
          (open_onboard-Alike a b config)
          (seq-Alike (sweep outside) (sweep outside) (start_jobs outside config)
            (start_jobs outside config) (sweep-Alike outside) (start_jobs-Alike outside config))))
      (same_Differs (open_pool outside config begun))
