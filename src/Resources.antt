-- ===== src/Resources.antt =====
-- resources/*.go: the kinds of Kubernetes resources behind one interface.
pub mod Containers
pub mod Handle
pub mod Service
pub mod Poll
pub mod Workload
pub mod Pods
pub mod Deployment
pub mod StatefulSet
pub mod DaemonSet
pub mod Job
pub mod CronJob
pub mod Kubegres
pub mod Waits
pub mod JobWaits
