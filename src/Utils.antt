-- ===== src/Utils.antt =====
-- The helpers of agent/src/common/utils.
pub mod Chunker
pub mod Canonicalize
