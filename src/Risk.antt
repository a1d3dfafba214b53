-- ===== src/Risk.antt =====
-- The risk service: app/risk/ and app/routes/{signals,risk,outcomes}.py.
pub mod Records
pub mod Mapping
pub mod Store
pub mod Replies
pub mod Service
pub mod Routes
pub mod Keeps
pub mod Atomic
pub mod Frame
pub mod Local
pub mod Reports
pub mod Commute
pub mod Views
pub mod Queue
pub mod Collapse
pub mod Floor
pub mod Agrees
pub mod Answers
pub mod Served
pub mod Spared
mod Tests
