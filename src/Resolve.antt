-- ===== src/Resolve.antt =====
-- src/resolve: what answers a query beside the recursion.
pub mod Net
pub mod Dualstack
pub mod Block
pub mod Replies
pub mod ZoneRecords
pub mod Custom
pub mod Geo
pub mod Recurse
pub mod Iterate
pub mod Flight
pub mod Limiter
pub mod Requests
pub mod Pipeline
pub mod Handle
