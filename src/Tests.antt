-- ===== src/Tests.antt =====
-- Runs at concrete inputs, one for each stated property that has parameters.
pub mod Data
pub mod StoreRuns
pub mod EngineRuns
pub mod ContentRuns
pub mod VerifyRuns
pub mod AppRuns
pub mod ConfigRuns
pub mod StartRuns
