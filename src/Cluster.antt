-- ===== src/Cluster.antt =====
-- What lies outside the program: the Kubernetes cluster, the clock and the source of randomness.
pub mod Objects
pub mod Clients
