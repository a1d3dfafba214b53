-- ===== src/App/FailsOpen.antt =====
-- A start without Onboard: the gate then admits reviews without looking up profiles.
use dost_review_api.Prelude.{◌≡◌, refl, false, none, arith}
use dost_review_api.Models.{Uuid}
use dost_review_api.Gate.Profiles.{Onboard, validate_profiles}
use dost_review_api.Batch.Engine.{Ended, finished, raised}
use dost_review_api.App.Pools.{
  Pool, lookup_pool, create_pool, create_onboard_pool, get_onboard_pool,
}
use dost_review_api.App.Lifespan.{
  Config, Process, Outside, Command, next, ◌>>◌, set_api_key, open_pool, migrate, open_onboard,
  sweep, start_jobs, startup, onboard_of, onboard_seen,
}
use dost_review_api.App.Start.{with_onboard}

module _ {S : Type 0} where
  abbrev Without : Ended × Process S → Type 0
  Without x = x.1.pools.onboard_pool ≡ none

  -- A command that opens no pool of Onboard, whether it raises or not.
  abbrev Keeps : Command S → Type 0
  Keeps m = (p : Process S) → p.pools.onboard_pool ≡ none → Without (m p)

  next-Without : (k : Command S) (x : Ended × Process S) → Keeps k → Without x → Without (next k x)
  unfolding next
  next-Without k (finished, p) keeps h = keeps p h
  next-Without k (raised, p) keeps h = h

  seq-Keeps : (m k : Command S) → Keeps m → Keeps k → Keeps (m >> k)
  seq-Keeps m k first second p h = next-Without k (m p) second (first p h)

  open_pool-Keeps : (outside : Outside S) (config : Config) → Keeps (open_pool outside config)
  unfolding open_pool create_pool
  open_pool-Keeps outside config p h = ground (arith, h)

  open_onboard-Keeps :
      (outside : Outside S) (config : Config)
      → Keeps (open_onboard (with_onboard (λ p. false) outside) config)
  unfolding open_onboard create_onboard_pool lookup_pool
  open_onboard-Keeps outside config p h = ground (arith, h)

  startup-Keeps :
      (outside : Outside S) (config : Config)
      → Keeps (startup (with_onboard (λ p. false) outside) config)
  unfolding startup set_api_key migrate sweep start_jobs
  startup-Keeps outside config =
      let a = with_onboard (λ p. false) outside in
      seq-Keeps (set_api_key config) _ (λ p h. h)
        (seq-Keeps (open_pool a config) _ (open_pool-Keeps a config) (
          seq-Keeps (migrate a) _ (λ p h. h)
            (seq-Keeps (open_onboard a config) _ (open_onboard-Keeps outside config)
              (seq-Keeps (sweep a) (start_jobs a config) (λ p h. h) (λ p h. h)))))

-- When Onboard cannot be reached, a start from a process without a pool of Onboard leaves the gate, by any
-- answers of such a pool, without an objection to any pair of profiles.
pub startup-fails_open :
    {S : Type 0} (outside : Outside S) (config : Config) (ask : Pool → Onboard) (p : Process S)
    (target rater : Uuid)
    → p.pools.onboard_pool ≡ none
    → validate_profiles
        (onboard_seen ask (startup (with_onboard (λ p. false) outside) config p).1.pools)
        target
        rater
      ≡ none
unfolding onboard_seen onboard_of get_onboard_pool validate_profiles
startup-fails_open outside config ask p target rater h = rw (startup-Keeps outside config p h) refl
