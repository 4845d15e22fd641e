-- ===== src/ClusterStatus/Probe.antt =====
-- cmd/cluster-status/main.go: the requests to the status manager and to the other nodes, and the checks
-- of the kernel.
use kube_bundler.Prelude.{ℕ, String, ◌<>◌, List, [], ◌∷◌, ◌==◌, if◌then◌else◌}
use kube_bundler.Prelude.Dict.{Dict}
use kube_bundler.Prelude.Int.{ℤ, eqb_ℤ}
use kube_bundler.Go.Io.{Io, Result, ok, err, panic, pure, lift, attempt, finally, ◌>>=◌}
use kube_bundler.Go.Errors.{Error}
use kube_bundler.Managers.Health.{DetailStatus}
use kube_bundler.Managers.NodePass.{NodeInfo}

abbrev pub online : String
online = "online"

abbrev pub offline : String
offline = "offline"

abbrev pub healthy : String
healthy = "Healthy"

abbrev pub healthy_value : String
healthy_value = "true"

abbrev pub not_healthy : String
not_healthy = "Not Healthy"

abbrev pub not_healthy_value : String
not_healthy_value = "false"

abbrev pub health_status_deployment_url : String
health_status_deployment_url = "http://app-status.default:8080/"

-- The names of the checks, with a parameter of the kernel and the value that is expected.
abbrev pub sysctl_checks : Dict (String × String)
sysctl_checks =
    ("ipForwarding", ("net.ipv4.ip_forward", "1"))
    ∷ ("routeLocalnet", ("net.ipv4.conf.all.route_localnet", "1"))
    ∷ []

-- net/http, encoding/json and os/exec. The body of an answer is known by a number.
pub record StatusClient (W : Type 0) : Type 0 where
  pub get_nodes : String → Io W ℕ
  pub decode_nodes : ℕ → Io W (List NodeInfo)
  pub close_body : ℕ → Io W (Unit {0})
  pub get_code : String → Io W ℤ  -- the status code
  pub sysctl : String → Io W String
  pub message : Error → String  -- `Error()`
  pub trim_newline : String → String  -- `strings.TrimSuffix` of "\n"

-- What the answer of a node says.
unfoldable pub judge_online : String → Result ℤ → Result DetailStatus
judge_online name (ok code) =
    if eqb_ℤ code (ℤ.pos 200)
    then ok (record { name = name; value = online; healthy = healthy_value })
    else ok (record { name = name; value = offline; healthy = not_healthy_value })
judge_online name (err e) =
    ok (record { name = name; value = offline; healthy = not_healthy_value })
judge_online name (panic why) = panic why

module _ {W : Type 0} (c : StatusClient W) where
  -- The answer of the status manager at its endpoint for the nodes.
  unfoldable pub get_cluster_nodes : Io W (List NodeInfo)
  get_cluster_nodes = do
    body ← c.get_nodes (health_status_deployment_url <> "cluster-nodes")
    finally (c.close_body body) (c.decode_nodes body)

  -- A round of `checkNodeOnline`, up to what is stored.
  unfoldable pub check_node_online : String → NodeInfo → Io W DetailStatus
  unfolding judge_online
  check_node_online port node = do
    r ← attempt (c.get_code ("http://" <> (node.ip_address <> (":" <> (port <> "/online")))))
    lift (judge_online node.name r)

  -- The body of the loop over the checks of the kernel.
  judge_sysctl : String → String → Result String → Result DetailStatus
  judge_sysctl name expected (ok output) =
      let value = c.trim_newline output in
      ok (record {
        name = name;
        value = value;
        healthy = if value == expected then healthy_value else not_healthy_value;
      })
  judge_sysctl name expected (err e) =
      ok (record { name = name; value = c.message e; healthy = not_healthy_value })
  judge_sysctl name expected (panic why) = panic why

  -- The checks in the order in which the loop meets them.
  unfoldable pub sysctl_statuses : Dict (String × String) → Io W (List DetailStatus)
  unfolding judge_sysctl
  sysctl_statuses [] = pure []
  sysctl_statuses ((name, (param, expected)) ∷ rest) = do
    r ← attempt (c.sysctl param)
    d ← lift (judge_sysctl name expected r)
    ds ← sysctl_statuses rest
    pure (d ∷ ds)

-- `isHealthy` after a loop over statuses.
unfoldable pub all_healthy : List DetailStatus → String
all_healthy [] = healthy
all_healthy (d ∷ ds) =
    let rest = all_healthy ds in if d.healthy == not_healthy_value then not_healthy else rest

unfoldable pub check_sysctl_parameters :
    {W : Type 0} → StatusClient W → Dict (String × String) → Io W (String × List DetailStatus)
unfolding sysctl_statuses all_healthy
check_sysctl_parameters c ranged = do ds ← sysctl_statuses c ranged; pure (all_healthy ds, ds)
