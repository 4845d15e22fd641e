-- ===== src/Rollout.antt =====
-- helpers/rolloutstatus/rollout_status.go and helpers/deploymentutil/deployment.go.
pub mod Revision
pub mod Viewers
pub mod Done
