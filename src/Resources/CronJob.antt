-- ===== src/Resources/CronJob.antt =====
-- resources/cronjob_resource.go.
pub mod Latest
use kube_bundler.Prelude.{
  ℕ, String, Bool, true, false, Option, none, some, List, [], ◌∷◌, ◌<>◌, if◌then◌else◌, leb,
}
use kube_bundler.Prelude.Dict.{Dict}
use kube_bundler.Prelude.Int.{ℤ, eqb_ℤ, ltb_ℤ}
use kube_bundler.Go.Errors.{Error, errorf, text, wrapped}
use kube_bundler.Go.Io.{Result, ok, err, panic, Io, pure, annotate, lift, ◌>>=◌, ◌>>◌}
use kube_bundler.Cluster.Objects.{Job, CronJob, Pod}
use kube_bundler.Cluster.Clients.{Clientset, PatchType}
use kube_bundler.Resources.Containers.{LogOpts, LogInfo, StatusInfo}
use kube_bundler.Resources.Handle.{Handle, deref}
use kube_bundler.Resources.Pods.{add_pods, add_pod_logs}
use kube_bundler.Resources.Poll
use kube_bundler.Resources.Poll.{Round, again, done, crashed}

abbrev pub suspend_payload : String
suspend_payload = "{\"spec\" : {\"suspend\" : true }}"

abbrev pub unsuspend_payload : String
unsuspend_payload = "{\"spec\" : {\"suspend\" : false }}"

-- `sort.SliceStable`, the later job first: a job goes before the jobs that are not later.
unfoldable pub insert_job : Job → List Job → List Job
insert_job j [] = j ∷ []
insert_job j (i ∷ rest) =
    let later = insert_job j rest in
    if leb i.creation_timestamp j.creation_timestamp then j ∷ (i ∷ rest) else i ∷ later

unfoldable pub sort_jobs : List Job → List Job
unfolding insert_job
sort_jobs [] = []
sort_jobs (j ∷ rest) = insert_job j (sort_jobs rest)

-- The first of the sorted jobs.
unfoldable pub latest_job : List Job → Option Job
unfolding sort_jobs
latest_job jobs = elim (sort_jobs jobs) [ [] ↦ none | j ∷ _ ↦ some j ]

module _ {W : Type 0} (k : Clientset W) (h : Handle) where
  unfoldable pub fetch : Io W Handle
  fetch = do
    a ← annotate "Couldn't get cronjob" [] (k.cron_jobs.get h.namespace h.name)
    suspended ← lift (deref a.suspend)
    pure (
        if suspended
        then record h { available_replicas = ℤ.pos 0; total_replicas = ℤ.pos 0 }
        else record h { available_replicas = ℤ.pos 1; total_replicas = ℤ.pos 1 })

  unfoldable pub restart : Bool → Io W (Unit {0})
  restart force = pure tt

  unfoldable pub scale : ℤ → Io W (Unit {0})
  scale replicas =
      if eqb_ℤ replicas (ℤ.pos 0)
      then annotate "Failed to suspend cronJob" []
          (k.cron_jobs.patch h.namespace h.name PatchType.strategic_merge suspend_payload)
      else if ltb_ℤ (ℤ.pos 0) replicas
      then annotate "Failed to unsuspend cronJob" []
          (k.cron_jobs.patch h.namespace h.name PatchType.strategic_merge unsuspend_payload)
      else pure tt

  abbrev pub fetched : Io W CronJob
  fetched = annotate ("couldn't fetch cronJob " <> h.name) [] (k.cron_jobs.get h.namespace h.name)

  unfoldable pub delete : Io W (Unit {0})
  delete = do
    a ← fetched
    annotate ("error deleting cronJob " <> h.name) [] (k.cron_jobs.delete h.namespace h.name)

  -- The common part of `Logs` and `Status`: the pods of the latest job, if there is a job.
  pods_of_job : Option Job → Io W (List Pod)
  pods_of_job none = pure []
  pods_of_job (some job) =
      annotate "error initializing pod interface" []
        (k.pods.list h.namespace (k.selector job.match_labels))

  unfoldable pub latest_pods : Io W (List Pod)
  unfolding pods_of_job
  latest_pods = do
    a ← fetched
    jobs ←
        annotate "error initializing job interface" []
          (k.jobs.list h.namespace (k.selector a.job_labels))
    pods_of_job (latest_job jobs)

  unfoldable pub logs : LogOpts → Io W (Dict LogInfo)
  unfolding latest_pods
  logs opts = latest_pods >>= λ pods. add_pod_logs k h opts pods []

  unfoldable pub status : Io W (Dict StatusInfo)
  unfolding latest_pods
  status = latest_pods >>= λ pods. pure (add_pods h.service_name pods [])

abbrev pub needs_quorum : Bool
needs_quorum = false

-- `wait` gives none when the fuel runs out.
module _ {W : Type 0} (k : Clientset W) (h : Handle) where
  unfoldable pub judge_suspend : Option Bool → Round
  judge_suspend none = crashed "invalid memory address or nil pointer dereference"
  judge_suspend (some suspended) = if suspended then again else done

  -- An error of the read is logged and the cron job is read again.
  unfoldable pub judge_cron_job : Result CronJob → Round
  unfolding judge_suspend
  judge_cron_job (err e) = again
  judge_cron_job (panic why) = crashed why
  judge_cron_job (ok a) = judge_suspend a.suspend

  unfoldable pub round : W → Round × W
  unfolding judge_cron_job
  round w = let (r, w') = k.cron_jobs.get h.namespace h.name w in (judge_cron_job r, w')

  abbrev pub expired : Error
  expired = errorf "timeout expired waiting for cronJob" []

  unfoldable pub wait : ℕ → ℕ → W → Option (Result (Unit {0}) × W)
  wait = Poll.wait k.clock round expired
