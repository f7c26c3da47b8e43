-- ===== src/Runtime.antt =====
-- libs/fm_runtime: the library that every service imports.
pub mod Json
pub mod Event
pub mod Producer
pub mod Confirmation
pub mod Grants
