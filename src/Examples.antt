-- ===== src/Examples.antt =====
-- The theorems at concrete sessions: the runs of the components in small.
mod Intake
mod Data
mod Guards
mod Inspections
mod Histories
mod Sourcing
mod Delays
mod Orders
mod Flows
mod Drafts
mod Ranking
mod Forms
mod Benchmark
mod Upstream
mod Answers
