-- ===== src/Checks.antt =====
-- Runs of the model on concrete inputs, those of the repository's tests among them.
mod Memory
mod Sorting
mod Board
mod Codecs
mod PipelineRuns
mod PositionRuns
mod AgainRuns
mod MatchedRuns
mod NearestRuns
mod DemandRuns
mod RegionRuns
mod ApiRuns
mod SurgeRuns
mod TripRuns
mod WorkerRuns
mod MatchRuns
mod StartupRuns
mod ConfigRuns
mod GatewayRuns
mod KafkaRuns
mod AppsRuns
mod ShutdownRuns
mod InterleavedRuns
