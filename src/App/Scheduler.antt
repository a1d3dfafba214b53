-- ===== src/App/Scheduler.antt =====
-- app/scheduler.py. The scheduler of APScheduler is outside the program: its calls are a parameter.
use dost_review_api.Prelude.{String, ℕ, Bool, true, Option, none, some}
use dost_review_api.Models.{Uuid}
use dost_review_api.Batch.Database.{RunStatus, Db}
use dost_review_api.Batch.Engine.{Settings, Env, Ended, finished, raised}
use dost_review_api.Batch.Runner.{RunnerEnv, Executed, already_running, ran, execute_batch}

-- The arguments of `add_job`; the function is always `_scheduled_batch`.
pub record Job : Type 0 where
  pub crontab : String
  pub id : String
  pub replace_existing : Bool
  pub misfire_grace_time : ℕ
  pub coalesce : Bool

-- `add_job` with the parsing of the crontab, `start` and `shutdown(wait=False)`; `none` is an exception.
pub record SchedulerApi {ℓ} (S : Type ℓ) : Type ℓ where
  pub add_job : Job → S → Option S
  pub start : S → Option S
  pub shutdown : S → Option S

unfoldable pub daily_batch : String → Job
daily_batch cron = record {
  crontab = cron;
  id = "daily_batch";
  replace_existing = true;
  misfire_grace_time = 300;
  coalesce = true;
}

module _ {ℓ} {S : Type ℓ} where
  -- A call that raises leaves the scheduler as it was.
  unfoldable pub settled : S → Option S → Ended × S
  settled before none = (raised, before)
  settled before (some after) = (finished, after)

  unfoldable pub start_added : SchedulerApi S → Ended × S → Ended × S
  start_added api (raised, s) = (raised, s)
  start_added api (finished, s) = settled s (api.start s)

  -- `start_scheduler` and `stop_scheduler`.
  unfoldable pub start_scheduler : SchedulerApi S → String → S → Ended × S
  start_scheduler api cron s = start_added api (settled s (api.add_job (daily_batch cron) s))

  unfoldable pub stop_scheduler : SchedulerApi S → S → Ended × S
  stop_scheduler api s = settled s (api.shutdown s)

-- What `_scheduled_batch` logs at its end.
pub data Logged : Type 0 where
  skipped : Uuid → Logged
  ended : Uuid → RunStatus → Logged

unfoldable pub logged : Option (Uuid × Executed) → Option Logged
logged none = none
logged (some (id, already_running)) = some (skipped id)
logged (some (id, ran status)) = some (ended id status)

-- `_scheduled_batch`; `none` where it raises.
unfoldable pub scheduled_batch : Settings → Env → RunnerEnv → Uuid → Db → Option Logged × Db
scheduled_batch settings env renv fresh db =
    let (r, after) = execute_batch settings env renv fresh db in (logged r, after)
