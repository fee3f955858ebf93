-- ===== src/HermesClient.antt =====
-- src/hermes_a2a/hermes_client.py and exceptions.py: the client of the Hermes API. What each HTTP
-- call meets is an argument. The proofs are in the children.
mod Common
pub mod Request
pub mod Stream
pub mod Tally
pub mod Retry
pub mod Streaming
pub use Common.*
