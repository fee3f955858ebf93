-- ===== src/Scenarios.antt =====
-- Runs of the program on concrete inputs: the theorems' hypotheses hold there.
mod Peers
mod Client
mod Orchestration
mod Sockets
mod Admin
mod Gateway
mod Audit
mod Outside
mod Commands
mod Requests
mod Limits
mod Access
