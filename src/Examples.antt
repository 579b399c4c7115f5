-- ===== src/Examples.antt =====
-- Runs of the definitions on concrete jobs and stores.
mod Data
mod Encodings
mod StoreRuns
mod CapRuns
mod PolicyRuns
mod EngineRuns
mod ControlRuns
mod CronRuns
mod PluginRuns
mod SqlRuns
mod SqlTexts
mod EventRuns
mod FloatRuns
