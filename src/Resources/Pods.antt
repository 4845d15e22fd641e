-- ===== src/Resources/Pods.antt =====
-- The pods behind a resource: the loops of `Logs` and `Status` over the pods and their containers,
-- which are the same text in every resource.
pub mod Complete
use kube_bundler.Prelude.{ℕ, String, ◌<>◌, Option, none, some, List, [], ◌∷◌}
use kube_bundler.Prelude.{if◌then◌else◌}
use kube_bundler.Prelude.Dict.{Dict, insert}
use kube_bundler.Prelude.Int.{ℤ, negsuc, eqb_ℤ}
use kube_bundler.Go.Errors.{text}
use kube_bundler.Go.Io.{Io, pure, annotate, ◌>>=◌, ◌>>◌}
use kube_bundler.Cluster.Objects.{ContainerStatus, Pod}
use kube_bundler.Cluster.Clients.{Clientset, LogOptions}
use kube_bundler.Resources.Containers.{
  LogOpts, LogInfo, StatusInfo, get_container_names, get_container_state,
}
use kube_bundler.Resources.Handle.{Handle}

-- `[%d.%s.%s.%s]`
unfoldable pub status_key : String → String → String → String → String
status_key order service pod container =
    "[" <> (order <> ("." <> (service <> ("." <> (pod <> ("." <> (container <> "]")))))))

unfoldable pub status_info : String → String → Pod → ContainerStatus → StatusInfo
status_info container_type service pod s = record {
  service = service;
  pod = pod.name;
  container = s.name;
  node_name = pod.node_name;
  container_type = container_type;
  container_state = get_container_state s;
  restarts = s.restart_count;
}

unfoldable pub add_statuses :
    String → String → String → Pod → List ContainerStatus → Dict StatusInfo → Dict StatusInfo
unfolding status_key status_info
add_statuses order container_type service pod [] m = m
add_statuses order container_type service pod (s ∷ rest) m =
    add_statuses order container_type service pod rest (
      insert (status_key order service pod.name s.name) (status_info container_type service pod s)
        m)

-- The loop over the pods.
unfoldable pub add_pods : String → List Pod → Dict StatusInfo → Dict StatusInfo
unfolding add_statuses
add_pods service [] m = m
add_pods service (pod ∷ rest) m = add_pods service rest (
    add_statuses "1" "app" service pod pod.container_statuses
      (add_statuses "0" "init" service pod pod.init_container_statuses m))

-- `[%s.%s.%s]`
unfoldable pub log_key : String → String → String → String
log_key service pod container = "[" <> (service <> ("." <> (pod <> ("." <> (container <> "]")))))

unfoldable pub log_options : LogOpts → String → LogOptions
log_options opts container = record {
  container = container;
  follow = opts.follow;
  tail_lines = if eqb_ℤ opts.lines (negsuc 0) then none else some opts.lines;
}

unfoldable pub log_info : String → Pod → String → ℕ → LogInfo
log_info service pod container logs = record {
  service = service;
  pod = pod.name;
  container = container;
  logs = logs;
}

module _ {W : Type 0} (k : Clientset W) (h : Handle) (opts : LogOpts) where
  unfoldable pub add_container_logs : Pod → List String → Dict LogInfo → Io W (Dict LogInfo)
  add_container_logs pod [] m = pure m
  add_container_logs pod (c ∷ rest) m = do
    logs ←
        annotate "error opening stream for pod %s container %s" (text pod.name ∷ text c ∷ [])
          (k.pods.open_log h.namespace pod.name (log_options opts c))
    add_container_logs pod rest
        (insert (log_key h.service_name pod.name c) (log_info h.service_name pod c logs) m)

  unfoldable pub add_pod_logs : List Pod → Dict LogInfo → Io W (Dict LogInfo)
  add_pod_logs [] m = pure m
  add_pod_logs (pod ∷ rest) m = do
    m' ← add_container_logs pod (get_container_names opts.init_only pod) m
    add_pod_logs rest m'
