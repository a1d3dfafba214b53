-- ===== src/Batch.antt =====
-- The batch pipeline: app/batch_engine.py and app/batch_runner.py over one database.
pub mod Database
pub mod Claim
pub mod Engine
pub mod Updates
pub mod Held
pub mod Taken
pub mod Settled
pub mod Counts
pub mod Tally
pub mod Tallied
pub mod Order
pub mod Chosen
pub mod Keeps
pub mod Retries
pub mod Failures
pub mod Tags
pub mod Results
pub mod Runner
pub mod Orphans
pub mod Rescued
pub mod Accounted
pub mod Runs
pub mod Single
pub mod Progress
pub mod Others
pub mod Advances
pub mod Ids
pub mod Waiting
pub mod Drain
pub mod Day
pub mod Daily
pub mod Groups
pub mod Fixture
mod Tests
