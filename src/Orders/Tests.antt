-- ===== src/Orders/Tests.antt =====
-- Runs of the order service on small tables, and the theorems at concrete inputs.
pub mod Data
mod Status
mod Saving
mod Sending
mod Serving
mod Paging
mod Posting
