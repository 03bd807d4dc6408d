-- ===== src/LogView.antt =====
-- The log viewer's pure parts, in frontend/src/features/containers/components/log-viewer.
pub mod Range
pub mod Pins
pub mod Selection
pub mod ViewState
pub mod Search
pub mod Filtering
mod Tests
