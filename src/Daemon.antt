-- ===== src/Daemon.antt =====
-- The interactive daemon (backend/internal/daemon): the controller of a user's scan, the sink that
-- writes what a scan extracts, and their properties.
pub mod Controller
pub mod OneRun
pub mod Sink
pub mod Scan
pub mod Readiness
pub mod ReadinessSamples
pub mod Delivery
pub mod Completion
pub mod Samples
