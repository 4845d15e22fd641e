-- ===== src/Resources/Job.antt =====
-- resources/job_resource.go.
use kube_bundler.Prelude.{ℕ, String, Bool, false, Option, none, some, [], if◌then◌else◌}
use kube_bundler.Prelude.Dict.{Dict}
use kube_bundler.Prelude.Int.{ℤ}
use kube_bundler.Go.Errors.{Error, errorf}
use kube_bundler.Go.Io.{Result, ok, err, panic, Io, pure, annotate, lift, ◌>>=◌}
use kube_bundler.Cluster.Objects.{Job, Condition}
use kube_bundler.Cluster.Clients.{Clientset}
use kube_bundler.Resources.Containers.{LogOpts, LogInfo, StatusInfo}
use kube_bundler.Resources.Handle.{Handle, deref}
use kube_bundler.Resources.Workload.{logs_of_workload, status_of_workload}
use kube_bundler.Resources.Poll
use kube_bundler.Resources.Poll.{Round, again, done, crashed}
use kube_bundler.Prelude.{get_last?, ◌==◌}

abbrev pub job_complete : String
job_complete = "Complete"

module _ {W : Type 0} (k : Clientset W) (h : Handle) where
  unfoldable pub fetch : Io W Handle
  fetch = do
    a ← annotate "Couldn't get job" [] (k.jobs.get h.namespace h.name)
    completions ← lift (deref a.completions)
    parallelism ← lift (deref a.parallelism)
    pure (record h { available_replicas = completions; total_replicas = parallelism })

  unfoldable pub restart : Bool → Io W (Unit {0})
  restart force = pure tt

  unfoldable pub scale : ℤ → Io W (Unit {0})
  scale replicas = pure tt

  unfoldable pub delete : Io W (Unit {0})
  delete = pure tt

  unfoldable pub logs : LogOpts → Io W (Dict LogInfo)
  logs = logs_of_workload k k.jobs (λ a. a.match_labels) h "couldn't fetch job "

  unfoldable pub status : Io W (Dict StatusInfo)
  status =
      status_of_workload k k.jobs (λ a. a.match_labels) h "couldn't fetch job "
        "couldn't fetch podlist for job "

abbrev pub needs_quorum : Bool
needs_quorum = false

-- `wait` gives none when the fuel runs out.
module _ {W : Type 0} (k : Clientset W) (h : Handle) where
  unfoldable pub judge_last : Option Condition → Round
  judge_last none = again
  judge_last (some c) = if c.type == job_complete then done else again

  -- The test of the last condition. An error of the read is logged and the job is read again.
  unfoldable pub judge_job : Result Job → Round
  unfolding judge_last
  judge_job (err e) = again
  judge_job (panic why) = crashed why
  judge_job (ok job) = judge_last (get_last? job.conditions)

  unfoldable pub round : W → Round × W
  unfolding judge_job
  round w = let (r, w') = k.jobs.get h.namespace h.name w in (judge_job r, w')

  abbrev pub expired : Error
  expired = errorf "timeout expired waiting for job" []

  unfoldable pub wait : ℕ → ℕ → W → Option (Result (Unit {0}) × W)
  wait = Poll.wait k.clock round expired
