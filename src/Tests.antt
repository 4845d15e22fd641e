-- ===== src/Tests.antt =====
-- The theorems at concrete inputs.
mod Parameters
mod World
mod Rollouts
mod Commands
mod Managers
mod Client
mod Solvers
mod Deploys
mod Installs
mod Statuses
mod Nodes
mod Plans
mod Registries
mod Imports
mod Builds
mod StatusRows
mod Daemons
mod Registers
