-- ===== src/Coordinator.antt =====
-- src/actors/coordinator.rs
pub mod State
pub mod Retry
pub mod Incoming
pub mod Requests
pub mod Outputs
pub mod Dispatch
pub mod Routing
pub mod Schedule
pub mod Delivery
pub mod Indices
pub mod Completion
pub mod Failures
pub mod Signing
pub mod Early
pub mod Registration
pub mod Acceptance
pub mod Actors
pub mod Logged
pub mod Preserves
pub mod Handlers
pub mod Requested
pub mod Reach
pub mod Lifecycle
pub mod Held
pub mod Confidential
pub mod Signers
