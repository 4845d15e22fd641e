-- ===== src/Resources/Containers/Laws.antt =====
-- Which containers of a pod the logs are taken of.
use kube_bundler.Prelude.{
  String, ◌≡◌, refl, Bool, true, false, ◌||◌, List, [], ◌∷◌, ◌++◌, map, arith, if◌then◌else◌,
  append_assoc, append-nil,
}
use kube_bundler.Cluster.Objects.{ContainerStatus, Pod}
use kube_bundler.Resources.Containers.{get_container_names, scan_init, failed_or_in_progress}

-- One of the containers waits in a crash loop, or has ended with a code that is not zero.
abbrev pub any_failed : List ContainerStatus → Bool
any_failed [] = false
any_failed (s ∷ rest) = failed_or_in_progress s || any_failed rest

abbrev pub names : List ContainerStatus → List String
names l = map (λ (s : ContainerStatus). s.name) l

scan_init-eq :
    (l : List ContainerStatus) (before : List String) (failed : Bool)
    → scan_init before failed l ≡ (before ++ names l, failed || any_failed l)
unfolding scan_init
scan_init-eq [] before true = rw (append-nil before) refl
scan_init-eq [] before false = rw (append-nil before) refl
scan_init-eq (s ∷ rest) before failed = ground (
  arith,
  scan_init-eq rest (before ++ (s.name ∷ [])) (if failed_or_in_progress s then true else failed),
  append_assoc before (s.name ∷ []) (names rest),
)

-- The containers are the init containers where these alone are asked for, or where one of them has
-- failed; else they are the app containers, even while an init container is still running.
get_container_names-eq :
    (init_only : Bool) (pod : Pod)
    → get_container_names init_only pod ≡ (
        if init_only || any_failed pod.init_container_statuses
        then names pod.init_container_statuses
        else names pod.container_statuses)
unfolding get_container_names
get_container_names-eq init_only pod =
    let e = scan_init-eq pod.init_container_statuses [] false in ground (arith, e)
