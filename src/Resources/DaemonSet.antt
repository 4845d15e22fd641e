-- ===== src/Resources/DaemonSet.antt =====
-- resources/daemonset_resource.go.
use kube_bundler.Prelude.{ℕ, String, Bool, false, Option, [], ◌∷◌, if◌then◌else◌}
use kube_bundler.Prelude.Dict.{Dict}
use kube_bundler.Prelude.Int.{ℤ, eqb_ℤ, ltb_ℤ}
use kube_bundler.Go.Errors.{Error, errorf, text, wrapped}
use kube_bundler.Go.Io.{Result, Io, pure, annotate, ◌>>=◌}
use kube_bundler.Cluster.Objects.{DaemonSet}
use kube_bundler.Cluster.Clients.{Clientset, PatchType}
use kube_bundler.Rollout.Viewers.{daemon_set_status}
use kube_bundler.Resources.Containers.{LogOpts, LogInfo, StatusInfo}
use kube_bundler.Resources.Handle.{Handle}
use kube_bundler.Resources.Workload.{
  Converter, restart_workload, delete_workload, logs_of_workload, status_of_workload, rollout_round,
}
use kube_bundler.Resources.Poll
use kube_bundler.Resources.Poll.{Round, again, done, crashed}

-- A node selector that no node has, and its removal.
abbrev pub stop_payload : String
stop_payload =
    "{\"spec\": {\"template\": {\"spec\": {\"nodeSelector\": {\"non-existing\": \"true\"}}}}}"

abbrev pub start_payload : String
start_payload =
    "[{\"op\": \"remove\", \"path\": \"/spec/template/spec/nodeSelector/non-existing\"}]"

module _ {W : Type 0} (k : Clientset W) (h : Handle) where
  unfoldable pub fetch : Io W Handle
  fetch = do
    a ← annotate "Couldn't get daemonset" [] (k.daemon_sets.get h.namespace h.name)
    pure (record h {
      available_replicas = a.number_ready;
      total_replicas = a.desired_number_scheduled;
    })

  unfoldable pub restart : Bool → Io W (Unit {0})
  restart =
      restart_workload k k.daemon_sets (λ a. a.match_labels) h "couldn't fetch daemonset "
        "Couldn't delete pods for the daemonset: "

  unfoldable pub scale : ℤ → Io W (Unit {0})
  scale replicas =
      if eqb_ℤ replicas (ℤ.pos 0)
      then annotate "Failed to scale daemonset" []
          (k.daemon_sets.patch h.namespace h.name PatchType.strategic_merge stop_payload)
      else if ltb_ℤ (ℤ.pos 0) replicas
      then annotate "Failed to scale daemonset" []
          (k.daemon_sets.patch h.namespace h.name PatchType.json start_payload)
      else pure tt

  unfoldable pub delete : Io W (Unit {0})
  delete =
      delete_workload k k.daemon_sets (λ a. a.match_labels) h "couldn't fetch daemonset "
        "error deleting daemonset "

  unfoldable pub logs : LogOpts → Io W (Dict LogInfo)
  logs = logs_of_workload k k.daemon_sets (λ a. a.match_labels) h "couldn't fetch daemonset "

  unfoldable pub status : Io W (Dict StatusInfo)
  status =
      status_of_workload k k.daemon_sets (λ a. a.match_labels) h "couldn't fetch daemonset "
        "couldn't fetch podlist for "

abbrev pub needs_quorum : Bool
needs_quorum = false

-- `wait` gives none when the fuel runs out.
module _ {W U : Type 0} (k : Clientset W) (c : Converter U DaemonSet) (h : Handle) where
  unfoldable pub round : W → Round × W
  round =
      rollout_round k.daemon_sets c (λ r. daemon_set_status r (ℤ.pos 0)) h
        "Failed to convert unstructured Daemonset" "Failed to get daemonset status"
        (wrapped "Failed to get latest status of Daemonset: %q" (text h.name ∷ []))

  abbrev pub expired : Error
  expired = errorf "timeout expired waiting for daemonset" []

  unfoldable pub wait : ℕ → ℕ → W → Option (Result (Unit {0}) × W)
  wait = Poll.wait k.clock round expired
