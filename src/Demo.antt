-- ===== src/Demo.antt =====
-- The demo of the documentation site: the in-memory store of docs/lib/logdeck-demo/store.ts and the
-- requests that work on it, in docs/components/logdeck-demo/api.
pub mod Store
pub mod Containers
pub mod Tidy
pub mod Logs
pub mod Sharing
pub mod History
pub mod Pages
pub mod Kept
pub mod Requests
pub mod Removal
mod Tests
