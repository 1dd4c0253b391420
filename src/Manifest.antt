-- ===== src/Manifest.antt =====
-- src/management/manifest: a tenant's desired shape, and what the SDK decides about it by itself.
pub mod Spec
pub mod Order
pub mod Plan
pub mod Report
pub mod Execute
pub mod Validate
mod Examples
