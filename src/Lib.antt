-- ===== src/Lib.antt =====
-- A verification of the review API: the gate that admits reviews, the batch that turns them into
-- reputations, and the risk service that folds signals and outcomes into a profile's risk.
--
-- Parts, and where they are modelled:
--   Models.antt            app/models.py: the review that a client submits and its field validators.
--   Review.antt            the table `review` (migrations/001_initial.sql to 003_hardening.sql) and the SQL
--                          statements on it; Review/Laws.antt has their laws.
--   Gate/Profiles.antt     app/gate.py, `_validate_profiles`: the lookup in Onboard's database.
--   Gate.antt              app/gate.py, `gate_and_store` and `_persist_rejected`.
--   Batch/Database.antt    the tables and values of the batch; Batch/Claim.antt the claim of a run and its
--                          grouping; Batch/Engine.antt `run_batch`, `_merge_tags`, `_handle_failed_reviews`
--                          (app/batch_engine.py); Batch/Runner.antt app/batch_runner.py with the answers of
--                          app/routes/batch.py.
--   Risk/Records.antt      the values of app/routes/signals.py; Risk/Mapping.antt app/risk/mapping.py;
--                          Risk/Store.antt app/risk/store.py; Risk/Service.antt app/risk/service.py,
--                          whose values are in Risk/Replies.antt; Risk/Routes.antt the routes signals,
--                          outcomes and risk of app/routes/; Risk/Served.antt sequences of ingests;
--                          Risk/Reports.antt what an ingest reads and writes, by profile and by session, and
--                          Risk/Views.antt the tables up to what the service can see of them.
--   Risk/Collapse.antt     the UPDATE of migrations/005_review_queue_single_open.sql.
--   Api/Envelope.antt      app/event_parser.py; Api/Reviews.antt app/routes/reviews.py; Api/Reputation.antt
--                          app/routes/reputation.py; Api/Json.antt the JSON values that they walk.
--   Auth.antt              app/auth.py and the middleware of app/main.py.
--   App/Lifespan.antt      the lifespan of app/main.py, with the settings of app/config.py; App/Pools.antt
--                          app/database.py and app/routes/health.py; App/Scheduler.antt app/scheduler.py;
--                          App/Loader.antt `load_engine_module` and `_load_engine` (app/batch_engine.py);
--                          App/Ids.antt app/risk/ids.py.
--   Life.antt              the status of a review as an abstract machine; Life/System.antt the steps of the
--                          system, from app/gate.py, app/batch_runner.py and app/batch_engine.py;
--                          Life/Woven.antt the same with the steps of each run by themselves.
-- The other files are proofs, named for what they prove, and tests.
--
-- A request that is not public passes `verify_guard_key`. A submission is read from its body, raw or in an
-- envelope, and goes through `gate_and_store` to a row of `review` that is GATED or GATE_REJECTED.
-- `start_batch` sweeps stale runs and starts one unless one is RUNNING; `run_batch` claims GATED rows as
-- PROCESSING, calls the engine profile by profile, and leaves each row COMMITTED, GATED again, or FAILED.
-- The risk service is independent of both: a record is inserted once, passed to the engine's conversation
-- machine, and what that derives about the sender is folded into the sender's row.
--
-- State and steps. A table is a list of rows; an operation takes the tables it writes and returns them
-- with its answer. What the program meets, and does not decide, is in records: `Gate.Env` and
-- `Batch.Engine.Env` have the clock, the rows that other transactions lock or commit, and for some calls of
-- the database whether they raise: the audit write and the INSERT of the gate, the claim, the loads, the
-- updates and the commits of a batch; `RunnerEnv` the same for the requeue of the sweep and the statements at
-- the end of a run. In the risk service the insert of a signal event raises for a record that Postgres does
-- not take, and the write of a profile for a row that its CHECKs do not allow. A raise of another call, such as
-- a lost connection, is not modelled. `Risk.Replies.Engine` and `process_reputation` are the engine (vendor/engine.py), which the program loads at run time and which is an argument
-- everywhere. A transaction that raises leaves its tables as they were. In the gate, `others` is what
-- other transactions commit between the duplicate check and the insert. `run_batch_to_completion` is a
-- function, and in Life/Woven.antt a process too: a run is in a phase, and its claim, each question to the
-- engine, what follows the answer, and its end are steps between which submissions, starts, sweeps and the
-- death of the process come in any order. What follows an answer is one step, although
-- `_handle_failed_reviews` commits its updates row by row and a handling in the `except` may put a row that is
-- FAILED by then back to GATED: what others see in between is not modelled. An ingest is one step too.
--
-- Numbers. An instant is a number of microseconds; `received_at >= now - 24h` is written with an addition.
-- Scores count tenths, as the columns NUMERIC(5,1) and DECIMAL(3,1) do, weights hundredths; a score of the
-- engine is taken to be a whole number of tenths that is not negative. A confidence is a double: a number of
-- units of 2^-1074, an infinity, a NaN, or a negative number. All recursion is on lists, and there is no
-- fuel.
--
-- The driver asyncpg, APScheduler, the import system and the effect of a migration file are arguments too: the
-- process learns from them only whether a call raises and what it returns. A daily run is `execute_batch`, of
-- which the scheduler and the trigger are two callers.
--
-- The decoders of the routes (base64, `json.loads`, `UUID`, pydantic's coercion of JSON to the typed fields)
-- are a record of functions, `Decoders`, of which nothing is assumed.
--
-- Not modelled: the reputation engine itself (vendor/engine.py), the transport (FastAPI), the SQL text of
-- the migrations beyond the tables and keys that it declares and the UPDATE of 005, and logging. Stored
-- JSON is kept by its text. That pg_advisory_xact_lock serializes the calls of one key is the reason why
-- the operations are single steps; ingests of different keys, which it does not serialize, are the subject
-- of Risk/Commute.antt.
pub mod Prelude
pub mod Models
pub mod Review
pub mod Gate
pub mod Batch
pub mod Risk
pub mod Api
pub mod Auth
pub mod App
pub mod Life
