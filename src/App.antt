-- ===== src/App.antt =====
-- The life of the process: app/database.py, the engine loader of app/batch_engine.py, app/scheduler.py,
-- app/routes/health.py and the lifespan of app/main.py.
pub mod Pools
pub mod Loader
pub mod Scheduler
pub mod Lifespan
pub mod Ids
pub mod Start
pub mod Rescue
pub mod FailsOpen
mod Tests
