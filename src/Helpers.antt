-- ===== src/Helpers.antt =====
-- pkg/helpers: what the controllers share.
pub mod Objects
pub mod Generations
pub mod Related
pub mod Features
pub mod Klusterlets
pub mod Deletion
pub mod QueueKeys
pub mod StatusUpdates
pub mod Apply
mod Tests
