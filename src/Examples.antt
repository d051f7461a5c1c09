-- ===== src/Examples.antt =====
-- Runs at concrete inputs: tests of the definitions, and the theorems applied where their
-- hypotheses hold.
mod Leases
mod Transfers
mod Jobs
mod Masters
mod Connections
mod Gateways
mod Shells
mod Statuses
mod Bridges
mod Agents
mod Programs
mod Tools
mod Commands
mod Files
