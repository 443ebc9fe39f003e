-- ===== src/Agent.antt =====
-- app/agent: the tool registry, the policy gate and the execution engine.
pub mod Tools
pub mod Registry
pub mod Authorization
pub mod Execution
pub mod Catalog
mod Examples
