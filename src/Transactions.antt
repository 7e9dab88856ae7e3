-- ===== src/Transactions.antt =====
-- The signers and transaction builders of agent/src/common/transactions.
pub mod Hex
pub mod SafeSignature
pub mod Swap
pub mod GrpcClient
pub mod KeyPool
pub mod Signer
