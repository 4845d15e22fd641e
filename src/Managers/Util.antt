-- ===== src/Managers/Util.antt =====
-- managers/util.go.
pub mod Laws
use kube_bundler.Cluster.Objects.{Node}
use kube_bundler.Prelude.{◌/◌, none, ◌+◌}
use kube_bundler.Prelude.{
  ◌+◌, ◌/◌, String, ◌<>◌, Bool, true, false, List, [], ◌∷◌, ◌==◌, if◌then◌else◌, length,
}
use kube_bundler.Prelude.Int.{ℤ, ltb_ℤ, sub_ℕ}
use kube_bundler.Go.Errors.{errorf, text, int, count, Error, wrapped}
use kube_bundler.Go.Io.{Io, pure, fail, annotate, ◌>>=◌, Result, ok, err, panic, lift}
use kube_bundler.Api.{Flavor, ManifestSpec}
use kube_bundler.Managers.Resource
use kube_bundler.Cluster.Clients.{Objects}

abbrev pub action_smoketest : String
action_smoketest = "smoketest"

unfoldable pub string_slice_contains : List String → String → Bool
string_slice_contains [] item = false
string_slice_contains (i ∷ slice) item =
    let rest = string_slice_contains slice item in if i == item then true else rest

unfoldable pub get_resource_name : String → String → String
get_resource_name name suffix = if suffix == "" then name else name <> ("-" <> suffix)

unfoldable pub get_name_with_action : String → String → String
get_name_with_action name action = if action == action_smoketest then name <> "-smoketest" else name

-- `nodes` lists the nodes of the cluster, by their names.
module _ {W : Type 0} (flavors : Objects W Flavor) (nodes : Io W (List String)) where
  check_nodes : Flavor → String → List String → Io W (Unit {0})
  check_nodes flavor name available =
      if ltb_ℤ (ℤ.pos (length available)) flavor.spec.minimum_nodes
      then fail (
          errorf "cluster node count %d is lower than minimum %d required by flavor %s"
            (count (length available) ∷ int flavor.spec.minimum_nodes ∷ text name ∷ []))
      else pure tt

  unfoldable pub verify_node_requirements : String → String → Io W (Unit {0})
  unfolding check_nodes
  verify_node_requirements name namespace = do
    flavor ←
        annotate "couldn't get flavor %q" (text name ∷ [])
          (Resource.get flavors (λ f. f.name) (λ f. f.namespace) name namespace)
    available ← annotate "couldn't get cluster nodes" [] nodes
    check_nodes flavor name available

-- The division of an `int64` by 1024 three times, which rounds towards zero.
unfoldable pub in_gb : ℤ → ℤ
in_gb (ℤ.pos n) = ℤ.pos (n / 1024 / 1024 / 1024)
in_gb (ℤ.negsuc n) = sub_ℕ 0 ((n + 1) / 1024 / 1024 / 1024)

-- `parse` is `resource.ParseQuantity` with `Value`, which reads a quantity as an `int64`.
module _ (parse : String → Result ℤ) where
  judge_quantity : ℤ → String → (ℤ → Error) → Result (Unit {0}) → Result ℤ → Result (Unit {0})
  judge_quantity available parse_error too_small rest (ok v) =
      if ltb_ℤ available v then err (too_small v) else rest
  judge_quantity available parse_error too_small rest (err e) = err (wrapped parse_error [] e)
  judge_quantity available parse_error too_small rest (panic why) = panic why

  -- A requirement on a node: the value of the quantity is at most what the node has.
  unfoldable pub check_quantity :
      String → ℤ → String → (ℤ → Error) → Result (Unit {0}) → Result (Unit {0})
  unfolding judge_quantity
  check_quantity required available parse_error too_small rest =
      if required == ""
      then rest
      else judge_quantity available parse_error too_small rest (parse required)

  cpu_error : Node → ℤ → Error
  cpu_error n v =
      errorf
        "Insufficient CPU in cluster node %s: available CPU %v is less than required minimum %v"
        (text n.name ∷ int n.cpu_value ∷ int v ∷ [])

  memory_error : Node → ℤ → Error
  unfolding in_gb
  memory_error n v =
      errorf
        "Insufficient Memory in cluster node %s: available Memory %v is less than required minimum %v"
        (text n.name ∷ int (in_gb n.memory_value) ∷ int (in_gb v) ∷ [])

  -- The loop over the nodes.
  unfoldable pub check_capacity : ManifestSpec → List Node → Result (Unit {0})
  unfolding check_quantity cpu_error memory_error
  check_capacity spec [] = ok tt
  check_capacity spec (n ∷ ns) =
      check_quantity spec.cpu n.cpu_value "Failed to parse field 'CPU' in manifest" (cpu_error n) (
        check_quantity spec.memory n.memory_value "Failed to parse field 'Memory' in manifest"
          (memory_error n) (check_capacity spec ns))

  unfoldable pub verify_resource_requirements :
      {W : Type 0} → Io W (List Node) → ManifestSpec → Io W (Unit {0})
  unfolding check_capacity
  verify_resource_requirements nodes spec = do
    ns ← annotate "couldn't get cluster nodes" [] nodes
    lift (check_capacity spec ns)
