-- ===== src/Lib.antt =====
-- kube-bundler packages applications for Kubernetes as bundles, registers and installs them, and
-- reports on what runs. This library models the parts of it that decide something.
--
-- The managers (managers/) are called by the command line tool (cmd/kb/) and act on custom resources
-- (api/v1alpha1/) through the API server. A bundle is read from a source, its application is
-- registered once its dependencies are met, and an install gives it parameters, some of them
-- generated secrets. What an install deploys is handled by one interface over six kinds of
-- resources (resources/), which wait for rollouts by the viewers of helpers/. The status manager
-- checks applications, nodes and resources beside each other and serves what it finds; it asks a
-- process on each node (cmd/cluster-status/), which in turn asks it for the nodes.
--
-- Which file models what:
--   Prelude    tests, lists, dictionaries (`map[string]V`) and integers
--   Go         error values and wrapping, results with panics, effects as functions of a world,
--              Run: code that polls, on fuel; `strings.TrimSpace`, `strings.Split`,
--              `strings.Contains`, `strings.Compare`, decimal numbers
--   Cluster    objects of the Kubernetes API and the clients that the code calls: parameters
--   Api        api/v1alpha1/*_types.go: the custom resources; Validate has `Application.Validate`,
--              Registry has `ClusterUrl` and `SanitizedRegistryName`
--   Parameter  managers/parameter.go: Secret has `getSecretValue` and below, Manager the methods
--              of `ParameterManager`; Merged, Required, Additional and Secret/Stable have the proofs
--   Rollout    helpers/deploymentutil/deployment.go (Revision) and
--              helpers/rolloutstatus/rollout_status.go (Viewers); Done has the proofs
--   Resources  resources/*.go: Containers and Handle are shared types, Pods the loops over pods,
--              Poll the loop of every `Wait`, Workload what four kinds have in common; Deployment,
--              StatefulSet, DaemonSet, Job, CronJob and Kubegres are the kinds, and Service is beside
--              them. Each operation has the name of its method, as in `fetch` for `Fetch`
--   Managers   managers/*.go. Client has the clients that every manager holds; Config, Resource,
--              Source, Directory (`DirectorySource.Put`), S3, Register, RegisterAll, Status, Util,
--              Install, Flavor, Rollout and Transfer (copy.go, publish.go) are named after their
--              files. deploy.go is cut into DeployJob (the config map and the job), JobPoll (the
--              logs and the wait for the job), Prepare (what is read first) and Deploy (the rest,
--              with smoketest.go and deploysmoketest.go); manifest.go into ManifestPlan (what is
--              asked of the dependency solver), Manifest (deploy, diff, smoke test) and
--              ManifestInstall. Solver says what the solver is, and Solver/Order what it means to
--              work in its order. status_resource.go is Status and
--              ResourcePass, status_app.go is Health (the checks) and Tracker (the goroutines, as
--              steps between two states), status_node.go is NodePass (a round), NodeTracker
--              (the goroutines) and the end of Health; StatusServer has the handlers and
--              status.go. bootstrap.go is Bootstrap; registry.go is Registry (deployment and
--              proxy), Registry/Removal, Import and Extract (an archive of images); Embedded has
--              the files that both apply. build.go is Build, and Build/DeployImage for the image
--              that deploys
--   StatusCommand  cmd/kb/subcommands/status.go, the command that shows the status; Laws has the
--              proofs on the summary and on duplicates, Order those on the order of the rows
--   ClusterStatus  cmd/cluster-status/main.go, the process on each node: Probe has what it asks, and
--              the module itself its goroutines, as steps between two states; Laws has the
--              invariant, Round and Follow how it follows the status manager
--   Waitfor    cmd/waitfor/main.go, the command that waits for its targets
--   Tests      the theorems at concrete inputs
--
-- A call of the API server, of the file system, of the clock or of a random source takes a world
-- and returns a result with a new world; the code sees no more of the world than that. An error
-- keeps its format string and its arguments, and the kind by which the code tells errors apart.
-- Go's `int` is unbounded here; a conversion to `int32` wraps. A nil pointer is `none`, and what
-- follows it is a panic. The order of a Go map is not fixed, so statements speak of lookups.
-- Text that the code prints or logs is left out.
--
-- `Poll.wait` runs on fuel, one unit a round. A round that goes on takes at least the pause of five
-- seconds, so one unit more than the timeout divided by five seconds is enough on a clock that does
-- not run backwards. The loops of `ResourceManager.Delete` and of `Waitfor.main` run on fuel too:
-- every branch of the first one's body leaves the loop, so one unit is enough, and the second one
-- needs one unit more than there are pauses of two seconds in the timeout.
--
-- The loops of `pollJob` and `GetLogs` pause for a second: the fuel is more than the seconds up to
-- the deadline. The second reading of the logs in `pollJob` has no deadline and may need more fuel
-- than any number.
--
-- A loop over a Go map takes the order of the keys from a parameter, `ranged`.
--
-- `extract` reads an archive to its end and needs one unit of fuel more than there are entries.
--
-- Not modelled: the other commands of the command line tool (cmd/kb/), which read flags, call one
-- manager and print a table; the controllers (controllers/, main.go), which are an empty scaffold;
-- generated code.
pub mod Prelude
pub mod Go
pub mod Api
pub mod Cluster
pub mod Parameter
pub mod Rollout
pub mod Resources
pub mod Managers
pub mod Waitfor
pub mod StatusCommand
pub mod ClusterStatus
mod Tests
