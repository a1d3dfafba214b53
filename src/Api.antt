-- ===== src/Api.antt =====
-- The routes for reviews and reputations: app/routes/reviews.py with app/event_parser.py, and
-- app/routes/reputation.py.
pub mod Json
pub mod Envelope
pub mod Reviews
pub mod Created
pub mod WellFormed
pub mod Reputation
mod Tests
