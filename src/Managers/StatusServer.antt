-- ===== src/Managers/StatusServer.antt =====
-- managers/status.go, and the handlers of managers/status_app.go, managers/status_node.go and
-- managers/status_resource.go: the server that answers with what the checks have stored.
use kube_bundler.Prelude.{[]}
use kube_bundler.Prelude.{String, Option, none, some, List, map, ◌==◌, if◌then◌else◌}
use kube_bundler.Prelude.Dict.{Dict}
use kube_bundler.Go.Io.{Io, ok, annotate, ◌>>◌}
use kube_bundler.Managers.Health.{AppStatus}
use kube_bundler.Managers.NodePass.{NodeInfo, NodeStatus}
use kube_bundler.Managers.ResourcePass.{ResourceStatus}

-- `appStatusResults`, `clusterNodesResults` and `resourceStatusResults`
pub record Results : Type 0 where
  pub apps : Dict AppStatus
  pub nodes : Dict NodeStatus
  pub resources : List ResourceStatus

-- encoding/json, where `B` is what is written to the answer, and the entries of a `sync.Map` in the order of its `Range`.
pub record Encoding (B : Type 0) : Type 0 where
  pub encode_nodes : List NodeInfo → B
  pub encode_statuses : List NodeStatus → B
  pub encode_apps : List AppStatus → B  -- as an `AppStatusResponse`
  pub encode_resources : List ResourceStatus → B
  pub ranged_nodes : Dict NodeStatus → Dict NodeStatus
  pub ranged_apps : Dict AppStatus → Dict AppStatus

-- The type that a handler sets, or "", and what it writes.
pub record Answer (B : Type 0) : Type 0 where
  pub content_type : String
  pub body : B

-- What `HealthStatus` starts.
pub data Routine : Type 0 where
  app_list cluster_list resource_list metrics : Routine

-- The start of a goroutine, and `http.ListenAndServe`.
pub record Server (W B : Type 0) : Type 0 where
  pub go : Routine → W → W
  pub listen : String → (String → Results → Option (Answer B)) → Io W (Unit {0})

module _ {B : Type 0} (e : Encoding B) where
  unfoldable pub retrieve_cluster_nodes : Results → Answer B
  retrieve_cluster_nodes r = record {
    content_type = "";
    body = e.encode_nodes (map (λ (p : String × NodeStatus). p.1.node) (e.ranged_nodes r.nodes));
  }

  unfoldable pub retrieve_cluster_status : Results → Answer B
  retrieve_cluster_status r = record {
    content_type = "";
    body = e.encode_statuses (map (λ (p : String × NodeStatus). p.1) (e.ranged_nodes r.nodes));
  }

  unfoldable pub retrieve_application_status : Results → Answer B
  retrieve_application_status r = record {
    content_type = "application/json";
    body = e.encode_apps (map (λ (p : String × AppStatus). p.1) (e.ranged_apps r.apps));
  }

  unfoldable pub retrieve_resource_status : Results → Answer B
  retrieve_resource_status r = record { content_type = ""; body = e.encode_resources r.resources }

  -- The handler of a path, or none.
  unfoldable pub serve : String → Results → Option (Answer B)
  unfolding retrieve_cluster_nodes retrieve_cluster_status retrieve_application_status
      retrieve_resource_status
  serve path r =
      if path == "/application-status"
      then some (retrieve_application_status r)
      else if path == "/cluster-status"
      then some (retrieve_cluster_status r)
      else if path == "/cluster-nodes"
      then some (retrieve_cluster_nodes r)
      else if path == "/resource-status"
      then some (retrieve_resource_status r)
      else none

  module _ {W : Type 0} (s : Server W B) where
    start : Routine → Io W (Unit {0})
    start r w = (ok tt, s.go r w)

    unfoldable pub health_status : Io W (Unit {0})
    unfolding start serve
    health_status = do
      start app_list
      start cluster_list
      start resource_list
      start metrics
      annotate "could not listen on port 8080" [] (s.listen ":8080" serve)
