-- ===== src/Managers/JobPoll/Stuck.antt =====
-- managers/deploy.go: the logs of a job whose pods do not start.
use kube_bundler.Managers.JobPoll.{judge_pods, judge_pod, unless_past, is_past}
use kube_bundler.Prelude.{ℕ, ◌≡◌, String, none, some, List, get_last?, inl, inr, ◌⊎◌}
use mathlib.Core.Logic.{if_pos}
use kube_bundler.Go.Io.{Result, ok}
use kube_bundler.Cluster.Objects.{Job, Pod}
use kube_bundler.Managers.Client.{KbClient, Libraries}
use kube_bundler.Managers.Config.{InstallReference}
use kube_bundler.Managers.JobPoll.{again, pod_pending, pod_round, get_job, get_logs}
use kube_bundler.Managers.JobPoll.Laws.{each_second-never}

module _ {W Key U : Type 0} (c : KbClient W Key U) (l : Libraries W U) where
  -- A pod list whose last pod, if there is one, is pending.
  abbrev pub NotStarted : Result (List Pod) → Type 0
  NotStarted r =
      (pods : List Pod) × (r ≡ ok pods)
      × ((get_last? pods ≡ none)
          ⊎ ((p : Pod) × (get_last? pods ≡ some p) × (p.phase ≡ pod_pending)))

  pod_round-again :
      (namespace selector : String) (u : W)
      → NotStarted (c.clientset.pods.list namespace selector u).0
      → (pod_round c l none namespace selector u).0 ≡ again
  unfolding pod_round judge_pods judge_pod unless_past is_past
  pod_round-again namespace selector u (pods, p, inl q) = rw (p, q)
  pod_round-again namespace selector u (pods, p, inr (pod, q, r)) = rw (p, q) (rw (if_pos _ r))

  -- Without a deadline, the logs of a job whose pods never start are never given, whatever the
  -- fuel.
  pub get_logs-stuck :
      (ref : InstallReference) (job : Job) (w u : W)
      → get_job c l ref w ≡ (ok job, u)
      → ((v : W)
          → NotStarted
              (c.clientset.pods.list ref.namespace (c.clientset.selector job.match_labels) v).0)
      → (fuel : ℕ) → get_logs c l fuel none ref w ≡ none
  unfolding get_logs
  get_logs-stuck ref job w u p idle fuel =
      let labels = c.clientset.selector job.match_labels in
      rw p (
        rw (
          each_second-never c.clientset.clock (pod_round c l none ref.namespace labels)
            (λ v. pod_round-again ref.namespace labels v (idle v)) fuel u))
