-- ===== src/Engine.antt =====
-- webhook_doorman/engine.py: persist, then dispatch, retry, dead-letter and retain.
pub mod Setup
pub mod Screening
pub mod Ingest
pub mod Admin
pub mod Backoff
pub mod Delivery
pub mod Calls
pub mod Entry
pub mod Serve
pub mod Told
pub mod Answers
pub mod Settles
pub mod Budget
pub mod Again
