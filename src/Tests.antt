-- ===== src/Tests.antt =====
-- Small inputs, runs of the code on them, and the properties at them.
mod Samples
mod Graph
mod Build
mod Engine
mod Run
mod Network
mod Paths
mod Hooks
mod Texts
mod Nodes
mod Memory
mod Batch
mod Switch
mod Handoff
mod Api
mod Flows
mod Executions
mod Socket
mod RateLimit
mod Vault
mod Migration
use z8run.Base.{ℕ}
