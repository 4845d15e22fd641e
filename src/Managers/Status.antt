-- ===== src/Managers/Status.antt =====
-- managers/status_resource.go: the status of a resource, from its replica counts.
pub mod Laws
use kube_bundler.Prelude.{
  ℕ, String, Bool, true, false, Option, none, some, List, [], ◌∷◌, if◌then◌else◌, not,
}
use kube_bundler.Prelude.Dict.{Dict, lookup_or}
use kube_bundler.Prelude.Int.{ℤ, eqb_ℤ, leb_ℤ, half}

unfoldable pub calculate_status : ℤ → ℤ → Bool → String
calculate_status available_replicas total_replicas needs_quorum =
    if eqb_ℤ total_replicas (ℤ.pos 0)
    then "stopped"
    else if eqb_ℤ available_replicas (ℤ.pos 0)
    then "down"
    else if eqb_ℤ available_replicas total_replicas
    then "up"
    else if needs_quorum
    then (if leb_ℤ (half total_replicas) available_replicas then "degraded" else "impacted")
    else "degraded"
