-- ===== src/Tests.antt =====
-- Runs of the modelled functions, and the results at concrete inputs.
mod EdidRuns
mod DeviceRuns
mod WatchdogRuns
mod DriverRuns
mod WorkerRuns
mod Samples
mod RegistryRuns
mod CliRuns
mod ChainRuns
mod ProbeRuns
mod RingRuns
mod MeasureRuns
