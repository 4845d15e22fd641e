-- ===== src/Resources/Deployment.antt =====
-- resources/deployment_resource.go.
use kube_bundler.Prelude.{ℕ, Bool, false, Option, [], ◌∷◌}
use kube_bundler.Prelude.Dict.{Dict}
use kube_bundler.Prelude.Int.{ℤ}
use kube_bundler.Go.Errors.{Error, errorf, text, wrapped}
use kube_bundler.Go.Io.{Result, Io, pure, annotate, lift, ◌>>=◌}
use kube_bundler.Cluster.Objects.{Deployment}
use kube_bundler.Cluster.Clients.{Clientset}
use kube_bundler.Rollout.Viewers.{deployment_status}
use kube_bundler.Resources.Containers.{LogOpts, LogInfo, StatusInfo}
use kube_bundler.Resources.Handle.{Handle, deref}
use kube_bundler.Resources.Workload.{
  Converter, restart_workload, delete_workload, scale_workload, logs_of_workload,
  status_of_workload, rollout_round,
}
use kube_bundler.Resources.Poll
use kube_bundler.Resources.Poll.{Round, again, done, crashed}

module _ {W : Type 0} (k : Clientset W) (h : Handle) where
  unfoldable pub fetch : Io W Handle
  fetch = do
    a ← annotate "Couldn't get deployment" [] (k.deployments.get h.namespace h.name)
    total ← lift (deref a.spec_replicas)
    pure (record h { available_replicas = a.ready_replicas; total_replicas = total })

  unfoldable pub restart : Bool → Io W (Unit {0})
  restart =
      restart_workload k k.deployments (λ a. a.match_labels) h "couldn't fetch deployment "
        "Couldn't delete pods for the deployment: "

  unfoldable pub scale : ℤ → Io W (Unit {0})
  scale =
      scale_workload k k.deployments (λ a. a.match_labels) h
        "Failed to get latest status of Deployment: %q\n" (text h.name ∷ [])
        "Failed to update replica count of Deployment"

  unfoldable pub delete : Io W (Unit {0})
  delete =
      delete_workload k k.deployments (λ a. a.match_labels) h "couldn't fetch deployment "
        "error deleting deployment "

  unfoldable pub logs : LogOpts → Io W (Dict LogInfo)
  logs = logs_of_workload k k.deployments (λ a. a.match_labels) h "couldn't fetch deployment "

  unfoldable pub status : Io W (Dict StatusInfo)
  status =
      status_of_workload k k.deployments (λ a. a.match_labels) h "couldn't fetch deployment "
        "couldn't fetch podlist for deployment "

abbrev pub needs_quorum : Bool
needs_quorum = false

-- `wait` gives none when the fuel runs out.
module _ {W U : Type 0} (k : Clientset W) (c : Converter U Deployment) (h : Handle) where
  unfoldable pub round : W → Round × W
  round =
      rollout_round k.deployments c (λ r. deployment_status r (ℤ.pos 0)) h
        "Failed to convert unstructued deployment" "Failed to get deployment status"
        (wrapped "Failed to get latest status of Deployment: %q" (text h.name ∷ []))

  abbrev pub expired : Error
  expired = errorf "timeout expired waiting for deployment" []

  unfoldable pub wait : ℕ → ℕ → W → Option (Result (Unit {0}) × W)
  wait = Poll.wait k.clock round expired
