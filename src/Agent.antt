-- ===== src/Agent.antt =====
-- The agent that runs at the client's site (edge_agent/src/agent).
pub mod StreamManager
pub mod Optimizer
pub mod Credentials
