-- ===== src/Manager.antt =====
-- The cluster manager controller, pkg/operators/clustermanager/controllers/clustermanagercontroller:
-- what it deploys, its four reconcilers, and its sync.
pub mod Config
pub mod Files
pub mod Reconcile
pub mod Tokens
pub mod Report
pub mod Sync
mod Tests
