-- ===== src/Spark.antt =====
-- The payment server of agent/examples/src (spark-server.ts, lightspark.ts and its two tools) and the
-- page of agent/examples/public/app.js that asks it. The Lightspark client and the model are parameters.
mod Lightspark
mod Server
pub mod Ledger
pub mod Replies
pub mod Failures
pub mod Requests
pub mod Overlap
pub mod Vouched
pub mod Page
mod Examples
unfoldable pub use Lightspark.*
unfoldable pub use Server.*
