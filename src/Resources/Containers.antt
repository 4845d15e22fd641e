-- ===== src/Resources/Containers.antt =====
-- The helpers of resources/deployable_resource.go, and its record types.
pub mod Laws
use kube_bundler.Prelude.{
  ℕ, String, ◌<>◌, Bool, true, false, Option, none, some, List, [], ◌∷◌, ◌++◌, map, not,
}
use kube_bundler.Prelude.{◌==◌, if◌then◌else◌}
use kube_bundler.Prelude.Int.{ℤ, eqb_ℤ}
use kube_bundler.Go.Decimal.{decimal}
use kube_bundler.Cluster.Objects.{ContainerStatus, Terminated, Pod}

abbrev pub crash_loop_back_off : String
crash_loop_back_off = "CrashLoopBackOff"

abbrev pub completed : String
completed = "Completed"

pub record LogOpts : Type 0 where
  pub lines : ℤ
  pub follow : Bool
  pub init_only : Bool

pub record LogInfo : Type 0 where
  pub service : String
  pub pod : String
  pub container : String
  pub logs : ℕ  -- the open stream

pub record StatusInfo : Type 0 where
  pub service : String
  pub pod : String
  pub container : String
  pub node_name : String
  pub container_type : String
  pub container_state : String
  pub restarts : ℤ

abbrev pub has_reason : Option String → String → Bool
has_reason none reason = false
has_reason (some r) reason = r == reason

abbrev pub has_failed : Option Terminated → Bool
has_failed none = false
has_failed (some t) = not (eqb_ℤ t.exit_code (ℤ.pos 0))

-- The two tests in the loop over the init containers.
unfoldable pub failed_or_in_progress : ContainerStatus → Bool
failed_or_in_progress s =
    if has_reason s.state.waiting crash_loop_back_off then true else has_failed s.state.terminated

-- The loop: the names so far, and whether one of the containers has failed.
unfoldable pub scan_init : List String → Bool → List ContainerStatus → List String × Bool
scan_init names failed [] = (names, failed)
scan_init names failed (s ∷ rest) =
    scan_init (names ++ (s.name ∷ [])) (if failed_or_in_progress s then true else failed) rest

unfoldable pub get_container_names : Bool → Pod → List String
unfolding scan_init
get_container_names init_only pod =
    let (init_containers, failed) = scan_init [] false pod.init_container_statuses in
    if failed
    then init_containers
    else if init_only
    then init_containers
    else map (λ s. s.name) pod.container_statuses

terminated_state : Terminated → String
terminated_state t =
    if t.reason == completed
    then completed
    else "Terminated (exit code " <> (decimal t.exit_code <> ")")

unfoldable pub get_container_state : ContainerStatus → String
unfolding terminated_state
get_container_state s = if s.state.running then "Running" else elim s.state.waiting [
  | some reason ↦ if reason == crash_loop_back_off then crash_loop_back_off else "Pending"
  | none ↦ elim s.state.terminated [ some t ↦ terminated_state t | none ↦ "Unknown" ]
]
