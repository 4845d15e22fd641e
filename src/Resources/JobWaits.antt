-- ===== src/Resources/JobWaits.antt =====
-- What the waits for jobs and cron jobs saw.
use kube_bundler.Prelude.{ℕ, ◌≡◌, refl, false, Bool, some, none, Option, get_last?, arith, inl, inr}
use kube_bundler.Go.Io.{ok, Result-cases}
use kube_bundler.Cluster.Objects.{Job, CronJob, Condition}
use kube_bundler.Cluster.Clients.{Clientset}
use kube_bundler.Resources.Handle.{Handle}
use kube_bundler.Resources.Poll.{done}
use kube_bundler.Resources.Job
use kube_bundler.Resources.CronJob
use kube_bundler.Resources.Waits.{Saw, wait-Saw}

-- The last condition of the job says that it is complete.
abbrev pub IsComplete : Job → Type 0
IsComplete job = (c : Condition) × (get_last? job.conditions ≡ some c) × (c.type ≡ Job.job_complete)

module _ {W : Type 0} (k : Clientset W) (h : Handle) where
  judge_last_complete :
      (o : Option Condition)
      → Job.judge_last k h o ≡ done
      → (c : Condition) × (o ≡ some c) × (c.type ≡ Job.job_complete)
  unfolding Job.judge_last
  judge_last_complete none e = ground arith
  judge_last_complete (some c) e = (c, refl, ground arith)

  judge_suspend-running : (o : Option Bool) → CronJob.judge_suspend k h o ≡ done → o ≡ some false
  unfolding CronJob.judge_suspend
  judge_suspend-running o e = ground arith

  job_round-done :
      (w : W)
      → (Job.round k h w).0 ≡ done
      → (a : Job) × ((k.jobs.get h.namespace h.name w).0 ≡ ok a) × IsComplete a
  unfolding Job.round Job.judge_job
  job_round-done w e = elim (Result-cases (k.jobs.get h.namespace h.name w).0) [
    | inl (a, p) ↦ (a, p, judge_last_complete (get_last? a.conditions) (rw p at e))
    | inr (inl (x, p)) ↦ ground (arith, rw p at e)
    | inr (inr (why, p)) ↦ ground (arith, rw p at e)
  ]

  cron_job_round-done :
      (w : W)
      → (CronJob.round k h w).0 ≡ done
      → (a : CronJob) × ((k.cron_jobs.get h.namespace h.name w).0 ≡ ok a) × (a.suspend ≡ some false)
  unfolding CronJob.round CronJob.judge_cron_job
  cron_job_round-done w e = elim (Result-cases (k.cron_jobs.get h.namespace h.name w).0) [
    | inl (a, p) ↦ (a, p, judge_suspend-running a.suspend (rw p at e))
    | inr (inl (x, p)) ↦ ground (arith, rw p at e)
    | inr (inr (why, p)) ↦ ground (arith, rw p at e)
  ]

  -- If `Wait` of a job returns no error, then in a round that began within the timeout the API
  -- gave the job with a last condition of completion, and the earlier reads gave none that ended
  -- the wait.
  pub job_wait-IsComplete :
      (fuel timeout : ℕ) (w w' : W)
      → Job.wait k h fuel timeout w ≡ some (ok tt, w')
      → Saw k
          (Job.round k h)
          (Job.expired k h)
          timeout
          (λ u. (k.jobs.get h.namespace h.name u).0)
          IsComplete
          w
          w'
  unfolding Job.wait
  job_wait-IsComplete fuel timeout w w' e =
      wait-Saw k (Job.round k h) _ _ _ job_round-done fuel timeout w w' e

  -- If `Wait` of a cron job returns no error, then in a round that began within the timeout the
  -- API gave the cron job not suspended, and the earlier reads gave none that ended the wait.
  pub cron_job_wait-running :
      (fuel timeout : ℕ) (w w' : W)
      → CronJob.wait k h fuel timeout w ≡ some (ok tt, w')
      → Saw k
          (CronJob.round k h)
          (CronJob.expired k h)
          timeout
          (λ u. (k.cron_jobs.get h.namespace h.name u).0)
          (λ a. a.suspend ≡ some false)
          w
          w'
  unfolding CronJob.wait
  cron_job_wait-running fuel timeout w w' e =
      wait-Saw k (CronJob.round k h) _ _ _ cron_job_round-done fuel timeout w w' e
