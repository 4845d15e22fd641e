-- ===== src/Managers/NodePass.antt =====
-- managers/status_node.go: one round of the check of a node.
use Prim.Native.Char.{code}
use kube_bundler.Prelude.{
  ℕ, String, ◌<>◌, Option, none, some, List, [], ◌∷◌, ◌++◌, ◌==◌, eqb, if◌then◌else◌,
}
use kube_bundler.Prelude.Dict.{Dict, lookup_or}
use kube_bundler.Go.Io.{Result, ok, err, panic, Io, pure, crash, lift, attempt, ◌>>=◌, ◌>>◌}
use kube_bundler.Go.Errors.{Error}
use kube_bundler.Cluster.Objects.{Condition}
use kube_bundler.Managers.Health.{
  Network, DetailStatus, check_node_condition_status, check_ssh_daemonset,
}

-- The fields of a node that the check reads.
pub record NodeData : Type 0 where
  pub name : String
  pub addresses : List String
  pub labels : Dict String
  pub conditions : List Condition

pub record NodeInfo : Type 0 where
  pub name : String
  pub ip_address : String
  pub role : String

-- `Network` is nil or not; the statuses of a node that does not answer have none.
pub record NodeStatus : Type 0 where
  pub node : NodeInfo
  pub status : String
  pub condition : List DetailStatus
  pub network : List DetailStatus
  pub preflight : List DetailStatus

-- `strings.TrimSuffix(s, "%")`
unfoldable pub trim_percent : String → String
trim_percent String.[] = String.[]
trim_percent (String.◌∷◌ c String.[]) =
    if eqb (code c) 0x25 then String.[] else String.◌∷◌ c String.[]
trim_percent (String.◌∷◌ c (String.◌∷◌ d s)) = String.◌∷◌ c (trim_percent (String.◌∷◌ d s))

-- What the check asks of net/http, encoding/json, strconv and the metrics, beside `Network`. An
-- answer is known by a number.
pub record NodeClient (W : Type 0) : Type 0 where
  pub get_status : String → Io W ℕ
  pub decode : ℕ → Io W NodeStatus
  pub message : Error → String  -- `Error()`
  pub set_percent : List String → String → W → W  -- of the number in the text

-- `node.Status.Addresses[0].Address`
unfoldable pub first_address : NodeData → Result String
first_address node = elim node.addresses [
  | [] ↦ panic "runtime error: index out of range [0] with length 0"
  | ip ∷ _ ↦ ok ip
]

-- `k0sNode.Load(node.Name)` and the assertion of its type, which panics on nil.
unfoldable pub loaded : Option NodeData → Result NodeData
loaded none = panic "interface conversion: interface {} is nil, not v1.Node"
loaded (some node) = ok node

abbrev pub info_of : NodeData → String → NodeInfo
info_of node ip = record {
  name = node.name;
  ip_address = ip;
  role = lookup_or "" "node.k0sproject.io/role" node.labels;
}

module _ {W : Type 0} (n : Network W) (k : NodeClient W) where
  gauge : List String → ℕ → Io W (Unit {0})
  gauge labels value w = (ok tt, n.set_gauge labels value w)

  percent : List String → String → Io W (Unit {0})
  unfolding trim_percent
  percent labels value w = (ok tt, k.set_percent labels (trim_percent value) w)

  is_up : DetailStatus → ℕ
  is_up d = if d.healthy == "true" then 1 else 0

  unfoldable pub report_network : String → List DetailStatus → Io W (Unit {0})
  unfolding gauge is_up
  report_network node [] = pure tt
  report_network node (d ∷ rest) = do
    gauge (node ∷ "network" ∷ ("ping to " <> d.name) ∷ []) (is_up d)
    report_network node rest

  unfoldable pub report_preflight : String → List DetailStatus → Io W (Unit {0})
  unfolding gauge is_up percent
  report_preflight node [] = pure tt
  report_preflight node (d ∷ rest) = do
    (if d.name == "diskCapacity"
        then percent (node ∷ "system" ∷ d.name ∷ []) d.value
        else gauge (node ∷ "system" ∷ d.name ∷ []) (is_up d))
    report_preflight node rest

  report_node : NodeInfo → ℕ → Io W (Unit {0})
  unfolding gauge
  report_node i up = gauge (i.name ∷ i.ip_address ∷ i.role ∷ []) up

  -- The node does not answer, or not with a status: what is stored, and under which name.
  unfoldable pub not_available :
      NodeData → String → List DetailStatus → Error → Io W (String × NodeStatus)
  unfolding report_node
  not_available node ip conditions e = do
    report_node (info_of node ip) 0
    pure (
      node.name,
      record {
        node = info_of node ip;
        status = "Not Available";
        condition =
            conditions
            ++ (record { name = "GetStatus"; value = k.message e; healthy = "false" } ∷ []);
        network = [];
        preflight = [];
      },
    )

  unfoldable pub available :
      NodeData → List DetailStatus → DetailStatus → NodeStatus → Io W (String × NodeStatus)
  unfolding report_node report_network report_preflight
  available node conditions ssh s = do
    report_network node.name s.network
    report_preflight node.name (s.preflight ++ (ssh ∷ []))
    report_node s.node 1
    pure (s.node.name, record s { condition = conditions; preflight = s.preflight ++ (ssh ∷ []) })

  unfoldable pub decoded :
      NodeData
      → String
      → List DetailStatus
      → DetailStatus
      → Result NodeStatus
      → Io W (String × NodeStatus)
  unfolding available not_available
  decoded node ip conditions ssh (ok s) = available node conditions ssh s
  decoded node ip conditions ssh (err e) = not_available node ip conditions e
  decoded node ip conditions ssh (panic why) = crash why

  unfoldable pub answered :
      NodeData → String → List DetailStatus → DetailStatus → Result ℕ → Io W (String × NodeStatus)
  unfolding decoded
  answered node ip conditions ssh (ok body) = do
    r ← attempt (k.decode body)
    decoded node ip conditions ssh r
  answered node ip conditions ssh (err e) = not_available node ip conditions e
  answered node ip conditions ssh (panic why) = crash why

  -- A round of `runNodeCheck`, up to its pause. `stored` is what `k0sNode` has at its beginning, and
  -- `conditions_then` what it has at the second look.
  unfoldable pub node_round :
      String → Option NodeData → Option (List Condition) → Io W (String × NodeStatus)
  unfolding loaded first_address answered check_node_condition_status check_ssh_daemonset
  node_round ssh_port stored conditions_then = do
    node ← lift (loaded stored)
    ip ← lift (first_address node)
    conditions ← check_node_condition_status n node.name conditions_then
    ssh ← check_ssh_daemonset n ssh_port ip
    r ← attempt (k.get_status ("http://" <> (ip <> ":9000/status")))
    answered node ip conditions ssh r
