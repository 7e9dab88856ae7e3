-- ===== src/Agent.antt =====
-- Agent of agent/src/common/agents/agents.ts: the loop that asks the model, runs the tools that it
-- calls and records both. The model, the tools and the memory act on a world `W`.
mod Types
mod Loop
pub mod Keeps
pub mod Transcript
pub mod Steps
pub mod Payments
pub mod Tools
pub mod Answers
mod Examples
unfoldable pub use Types.*
unfoldable pub use Loop.*
