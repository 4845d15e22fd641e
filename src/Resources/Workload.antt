-- ===== src/Resources/Workload.antt =====
-- The operations on a Deployment, a StatefulSet, a DaemonSet or a Job, which are the same text in
-- each of those files but for the client and the error messages. A workload's selector is never
-- nil: the API server requires it.
use kube_bundler.Prelude.{String, ◌<>◌, Bool, true, false, none, some, List, []}
use kube_bundler.Prelude.{if◌then◌else◌}
use kube_bundler.Prelude.Dict.{Dict}
use kube_bundler.Prelude.Int.{ℤ, int32}
use kube_bundler.Go.Errors.{Arg, Error, wrapped}
use kube_bundler.Go.Io.{Result, ok, err, panic, Io, pure, annotate, ◌>>=◌}
use kube_bundler.Cluster.Clients.{Clientset, Workloads, PatchType}
use kube_bundler.Rollout.Viewers.{View}
use kube_bundler.Resources.Containers.{LogOpts, LogInfo, StatusInfo}
use kube_bundler.Resources.Handle.{Handle}
use kube_bundler.Resources.Pods.{add_pods, add_pod_logs}
use kube_bundler.Resources.Poll.{Round, again, done, failed, crashed}

unfoldable pub restart_payload : String → String
restart_payload time =
    "{\"spec\":{\"template\":{\"metadata\":{\"annotations\":{\"kubectl.kubernetes.io/restartedAt\":\""
    <> (time <> "\"}}}}}")

-- `runtime.DefaultUnstructuredConverter`, at one type of objects.
pub record Converter (U A : Type 0) : Type 0 where
  pub to_unstructured : A → Result U
  pub from_unstructured : U → Result A

module _ {W A : Type 0} (k : Clientset W) (client : Workloads W A) (match_labels : A → Dict String)
    (h : Handle) where
  -- The read that every operation but `Scale` begins with.
  abbrev pub fetched : String → Io W A
  fetched what = annotate (what <> h.name) [] (client.get h.namespace h.name)

  now : Io W String
  now w = let (time, w') = k.clock.now w in (ok (k.clock.rfc3339 time), w')

  -- `if force { … } else { … }`
  restart_pods : String → Bool → A → Io W (Unit {0})
  restart_pods delete_error true a =
      annotate (delete_error <> h.name) []
        (k.pods.delete_collection h.namespace (k.selector (match_labels a)))
  restart_pods delete_error false a = do
    time ← now
    client.patch h.namespace h.name PatchType.strategic_merge (restart_payload time)

  unfoldable pub restart_workload : String → String → Bool → Io W (Unit {0})
  unfolding now restart_payload restart_pods
  restart_workload fetch_error delete_error force = do
    a ← fetched fetch_error
    restart_pods delete_error force a

  unfoldable pub delete_workload : String → String → Io W (Unit {0})
  delete_workload fetch_error delete_error = do
    a ← fetched fetch_error
    annotate (delete_error <> h.name) [] (client.delete h.namespace h.name)

  unfoldable pub scale_workload : String → List Arg → String → ℤ → Io W (Unit {0})
  scale_workload fetch_error args update_error replicas = do
    scale ← annotate fetch_error args (client.get_scale h.namespace h.name)
    annotate update_error []
        (client.update_scale h.namespace h.name (record scale { replicas = int32 replicas }))

  unfoldable pub logs_of_workload : String → LogOpts → Io W (Dict LogInfo)
  logs_of_workload fetch_error opts = do
    a ← fetched fetch_error
    pods ←
        annotate "error initializing pod interface" []
          (k.pods.list h.namespace (k.selector (match_labels a)))
    add_pod_logs k h opts pods []

  unfoldable pub status_of_workload : String → String → Io W (Dict StatusInfo)
  status_of_workload fetch_error list_error = do
    a ← fetched fetch_error
    pods ←
        annotate (list_error <> h.name) [] (k.pods.list h.namespace (k.selector (match_labels a)))
    pure (add_pods h.service_name pods [])

-- What `Wait` does with the outcome of a viewer.
unfoldable pub judge : String → View → Round
judge status_error v = elim v.error [
  | some e ↦ failed (wrapped status_error [] e)
  | none ↦ if v.done then done else again
]

-- The body of the loop of `Wait`.
module _ {W U A : Type 0} (client : Workloads W A) (c : Converter U A) (status : Result A → View)
    (h : Handle) (convert_error status_error : String) where
  unfoldable pub judge_converted : Result U → Round
  unfolding judge
  judge_converted (err e) = failed (wrapped convert_error [] e)
  judge_converted (panic why) = crashed why
  judge_converted (ok u) = judge status_error (status (c.from_unstructured u))

  unfoldable pub judge_read : (Error → Error) → Result A → Round
  unfolding judge_converted
  judge_read get_error (err e) = failed (get_error e)
  judge_read get_error (panic why) = crashed why
  judge_read get_error (ok a) = judge_converted (c.to_unstructured a)

  unfoldable pub rollout_round : (Error → Error) → W → Round × W
  unfolding judge_read
  rollout_round get_error w =
      let (r, w') = client.get h.namespace h.name w in (judge_read get_error r, w')
