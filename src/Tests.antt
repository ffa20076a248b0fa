-- ===== src/Tests.antt =====
-- Runs of the models at concrete inputs, and the theorems at inputs that meet their hypotheses.
mod GovernorRuns
mod RefreshRuns
mod RepairRuns
mod RuntimeRuns
mod AviationRuns
mod JobRuns
mod ReconcileRuns
mod PipelineRuns
