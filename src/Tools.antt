-- ===== src/Tools.antt =====
-- Tools of agent/src/common/tools that the agent may be given.
pub mod Uniswap
pub mod Widgets
pub mod Images
pub mod Twitter
pub mod Search
