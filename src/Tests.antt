-- ===== src/Tests.antt =====
-- Runs of the model on concrete requests, and the theorems at concrete inputs.
mod Samples
mod Runs
mod Examples
mod Services
mod Handlers
mod Agents
mod Webhooks
