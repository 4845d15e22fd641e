-- ===== src/Managers.antt =====
-- managers/*.go: the parts of the managers that decide something.
pub mod Util
pub mod Config
pub mod Resource
pub mod Status
pub mod StatusServer
pub mod Source
pub mod Register
pub mod Client
pub mod Rollout
pub mod DeployJob
pub mod JobPoll
pub mod Prepare
pub mod Deploy
pub mod ManifestPlan
pub mod Manifest
pub mod Solver
pub mod Directory
pub mod S3
pub mod Transfer
pub mod Flavor
pub mod Install
pub mod RegisterAll
pub mod ManifestInstall
pub mod ResourcePass
pub mod Health
pub mod Tracker
pub mod NodeTracker
pub mod NodePass
pub mod Embedded
pub mod Bootstrap
pub mod Registry
pub mod Extract
pub mod Import
pub mod Build
