-- ===== src/Transactions/Signer.antt =====
-- SAFSigner of agent/src/common/transactions/executeTransaction.ts and signAndBroadcastSafeTransaction
-- of safe.ts. ethers, the Safe kits and the key pool service are parameters over a state `W`.
mod Config
mod Operations
pub mod KeyIndex
pub mod Proposals
pub mod Samples
mod Examples
unfoldable pub use Config.*
unfoldable pub use Operations.*
