-- ===== src/Tests.antt =====
-- Runs of the model on small inputs, with the theorems applied to them.
mod CacheRuns
mod GitRuns
mod S3Runs
mod AptRuns
mod FlightRuns
mod NpmRuns
mod ServerRuns
mod ConfigRuns
mod GitConfigRuns
mod PackRuns
