-- ===== src/Config.antt =====
-- The declarative configuration (webhook_doorman/config.py): the models of sources and sinks, the
-- validators that refuse one at startup, and the names of the environment variables it refers to.
-- YAML and pydantic's own type checks come before it and are not modelled.
pub mod Source
pub mod Sinks
pub mod Check
pub mod Accepted
pub mod Crossed
