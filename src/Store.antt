-- ===== src/Store.antt =====
-- webhook_doorman/store: the SQLite store, its statements and what they keep.
pub mod Tables
pub mod Ingest
pub mod Claims
pub mod Verdicts
pub mod Sweep
pub mod Retention
pub mod Exclusive
pub mod InFlight
pub mod Attempts
pub mod ClaimAttempts
pub mod Listing
pub mod Paging
pub mod Invariant
pub mod Statements
pub mod Frame
pub mod Queued
pub mod AtMostOnce
pub mod Withheld
pub mod Awaiting
pub mod FirstSinks
pub mod Reachable
pub mod Methods
pub mod Received
pub mod Log
pub mod Ddl
pub mod Schema
pub mod Start
