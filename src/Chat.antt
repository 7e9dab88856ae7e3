-- ===== src/Chat.antt =====
-- The chat service of agent/src/chat: its types, its storage, its subscriptions and the service.
pub mod Types
pub mod Subscriptions
pub mod Hub
pub mod Waiting
pub mod Resolvers
pub mod Storage
pub mod Service
mod Examples
