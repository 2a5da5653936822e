-- ===== src/App.antt =====
-- The HTTP application (webhook_doorman/app.py): the ingest handler of one source, the admin API, and
-- the status and metrics routes. FastAPI's routing and the ASGI server are outside; a request is
-- what the handler reads of it.
pub mod Body
pub mod DeliveryId
pub mod Event
pub mod Handler
pub mod Readable
pub mod Door
pub mod Decided
pub mod Answer
pub mod Unleaked
pub mod Rejoined
pub mod Admin
pub mod Closed
pub mod Health
