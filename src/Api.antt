-- ===== src/Api.antt =====
-- crates/api: one child for each module of the service that is modelled, and its tests.
pub mod Error
pub mod Hex
pub mod Pagination
pub mod Registry
pub mod Tip
pub mod Blocks
pub mod Cells
pub mod Proofs
pub mod Health
pub mod RateLimit
pub mod Keys
pub mod Auth
pub mod Webhooks
pub mod Cookies
pub mod Session
pub mod Admin
pub mod RequestLogs
pub mod AdminMetrics
pub mod Middleware
mod Tests
