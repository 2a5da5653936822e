-- ===== src/Lib.antt =====
-- webhook-doorman: a webhook receiver that verifies and stores events, screens and filters them, and
-- delivers them to sinks with retries and a dead-letter queue.
--
-- A request comes in by the handler of its source, in App/Handler: it reads the body up to a cap,
-- verifies the raw bytes, redacts them, parses what is left, sanitises and caps the fields, decides
-- by the filter and the routes where the event goes, and gives it to `Engine.ingest`. There the
-- event is stored once per (source, delivery id), its untrusted text is screened by a detector, and
-- its deliveries are queued. A worker claims the due deliveries, sends each to its sink with a fenced
-- and redacted context, and records the outcome in the store, which rolls the deliveries up to the
-- status of the event. An operator can release a quarantined event or replay one, by the admin
-- routes. A sweep deletes what is old. Which sources and sinks are on is settled at startup by
-- `resolve`, from the validated configuration and the environment.
--
-- The files, and the code each is about:
--   Models.antt      src/webhook_doorman/models.py: the types and the statuses
--   Json.antt        decoded JSON, as `json.loads` gives it
--   Filtering.antt   src/webhook_doorman/filtering.py: `dig`, `evaluate`, `route`
--     Filtering/Admission.antt   what an admitted event has, and the order of the gates
--     Filtering/Routing.antt     where an event goes
--     Filtering/Truncate.antt    `truncate` and `truncate_text`; Truncate/Cut.antt: where a text is cut
--   Sanitize.antt    src/webhook_doorman/sanitize.py; Sanitize/Laws.antt: what is removed and reported
--   Fencing.antt     src/webhook_doorman/fencing.py; Fencing/Strip.antt: what stripping leaves
--   Verification.antt   src/webhook_doorman/verification.py: who may send
--     Verification/Genuine, BasicAuth, Closed   which requests pass
--   Redaction.antt   src/webhook_doorman/redaction.py: `redact_text`, `redact_json`
--     Redaction/Stored, Headers   `redact_bytes` and `_byte_forms`; `redact_headers`
--     Redaction/Gone, Cleared, Bytes   when a secret is gone from a text, a payload, a body
--   Parsers.antt     src/webhook_doorman/parsers.py
--     Parsers/Event, Generic, Github, Vikunja, Grafana, Registry   the parsers, and `parse`
--     Parsers/Actionable, Marked   which GitHub events act, and which fields are marked untrusted
--   Config.antt      src/webhook_doorman/config.py
--     Config/Source, Sinks, Check   a source and its validators, the sinks, the whole configuration
--     Config/Accepted, Crossed   what a validated configuration has
--   Secrets.antt     src/webhook_doorman/secrets.py; Secrets/Enabled, Covered: what `resolve` gives
--   App.antt         src/webhook_doorman/app.py
--     App/Body, DeliveryId, Event, Handler   the handler of one source, in its parts
--     App/Readable, Door, Decided, Answer   who is turned away, what is stored, what the answer means
--     App/Unleaked, Rejoined   what of a secret is stored, and what is not
--     App/Admin, Health; App/Closed   the admin, health and metrics routes; who may use the first
--   Context.antt     `_template_context` of models.py; Context/Fenced.antt: what is fenced
--   Store.antt       src/webhook_doorman/store/sqlite.py
--     Store/Tables, Ingest, Claims, Verdicts, Sweep, Listing   the rows, and one function per method
--     Store/Statements   each SQL statement as one step, and runs of steps
--     Store/Invariant, Frame, Reachable, Methods   the schema's constraints, and methods as runs
--     Store/Queued, AtMostOnce, Withheld, Awaiting, Exclusive, InFlight, Attempts, ClaimAttempts,
--       Retention, Paging, FirstSinks   what the engine relies on
--     Store/Received, Log   the abstract log of received events, and the tables against it
--     Store/Ddl, Schema, Start   the schema, its migrations, and the start of the store
--     Store/Start/Release, Migrated, Interrupted, Install   the files of the releases, upgrades,
--       crashes, the id of a database
--   Engine.antt      src/webhook_doorman/engine.py
--     Engine/Setup, Screening, Ingest, Admin, Backoff, Delivery   the engine's methods
--     Engine/Calls, Entry, Serve   the engine's calls as runs of the store's statements
--     Engine/Told, Answers, Settles, Budget, Again   what the answers and the worker promise
--   Sinks.antt       src/webhook_doorman/sinks/base.py; Sinks/Answers.antt: which answers count as what
--   Prelude.antt     lists, text, UTF-8 and tests on the native numbers
--   Tests.antt       runs at concrete inputs
--
-- The store is a `Db`: three lists of rows in insertion order and the next id of each table. A
-- method is a function from `Db` to its result and the next `Db`. The connection is in autocommit
-- mode, so a statement is atomic and other coroutines run between two statements; `Statement` has
-- one constructor for each statement that writes, and `run` takes them in any order, which covers
-- every interleaving of them. `enqueue` of several sinks is a sequence of INSERTs in the source;
-- in a run it can be written as a sequence of `enqueue` of one sink each. The methods of `Engine`
-- take the state and return the next one, each from start to end with one reading of the clock.
-- The attempts of one batch run one after the other in the order of the batch; `Faults` says which of
-- them raise in the engine, because the event cannot be read back or the write of the outcome raises
-- at its first statement. The writes of the recovery are taken to go through. At the start of the
-- store a file is its `Schema`: tables, indexes and version, without the rows. A crash keeps the
-- transactions that are committed, and a DDL statement fails where SQLite's does.
--
-- Bounds. `_strip_fence_tags` has the source's own fuel of 4 passes. Times are natural numbers of
-- microseconds, delays of milliseconds, jitter and scores in thousandths, where the source has
-- floating point. Every function is total; nothing runs out of fuel.
--
-- A body is a list of bytes and a text a list of code points, lone surrogates included, since JSON
-- can spell them. The errors that nothing catches are values: `Reply.raised` is one that Starlette
-- answers 500.
--
-- Arguments: NFKC, `json.loads`, `json.dumps`, `str` of a container, `repr`, `isoformat`,
-- `str.upper` and `str.lower`, SHA-256, the random draw of a delay, HMAC, base64, addresses and
-- networks, what `float` and the date parser read, the detector and the exchange of a sink. Log
-- lines are left out. The chunks of a request are at hand in order, and a client that breaks off
-- in between is not modelled. An event whose parsed type is no text is followed up to the call of
-- `ingest` (`Reply.unfollowed`). A negative event id of an admin call is that of no row, and is
-- left out.
--
-- Not modelled: YAML and the typing of the configuration by pydantic, its options for storage,
-- delivery and detector, the rules of the heuristic detector, the single sinks and their templates,
-- the exposition of metrics, tracing, and the wiring of `create_app`;
-- they are input to what is modelled here, or output from it.
pub mod Prelude
pub mod Json
pub mod Models
pub mod Store
pub mod Filtering
pub mod Sanitize
pub mod Fencing
pub mod Redaction
pub mod Context
pub mod Verification
pub mod Engine
pub mod Sinks
pub mod Parsers
pub mod Config
pub mod Secrets
pub mod App
pub mod Tests
