-- ===== src/Parsers.antt =====
-- From a vendor payload to the variables of a sink template (webhook_doorman/parsers.py): the parsed
-- event, the four parsers, and the registry through which a source names one.
pub mod Event
pub mod Generic
pub mod Github
pub mod Vikunja
pub mod Grafana
pub mod Registry
pub mod Actionable
pub mod Marked
