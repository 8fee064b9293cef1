-- ===== src/Control.antt =====
-- scripts/deploy/hermes_deployment_controller.py: the lease and deployment controller.
pub mod Formats
pub mod State
pub mod Artifacts
pub mod Metadata
pub mod Leases
pub mod Requests
pub mod Ops
pub mod LeaseFile
pub mod Locking
pub mod Blocking
pub mod Removal
pub mod Cleanup
pub mod Soaks
pub mod Frames
pub mod Integrity
pub mod Sessions
pub mod SoundFiles
pub mod Soundness
pub mod Cli
mod Tests
