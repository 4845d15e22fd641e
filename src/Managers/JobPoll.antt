-- ===== src/Managers/JobPoll.antt =====
-- The second half of managers/deploy.go: the logs of a deploy job, and the wait for its end. The
-- commands give a context without a deadline.
pub mod Laws
pub mod Reads
pub mod Stuck
pub mod Total
use kube_bundler.Prelude.{
  ℕ, zero, suc, ◌+◌, ◌-◌, String, Bool, true, false, Option, none, some, List, [], ◌∷◌, ◌==◌, ltb,
  if◌then◌else◌, get_last?,
}
use kube_bundler.Go.Errors.{Error, errorf, text, wrapped}
use kube_bundler.Go.Io.{Io, Result, ok, err, panic}
use kube_bundler.Go.Io
use kube_bundler.Go.Run.{Run, once, annotate, attempt, ◌>>=◌, ◌>>◌}
use kube_bundler.Cluster.Objects.{Job, Pod, DeployJob, Condition}
use kube_bundler.Cluster.Clients.{Clock, LogOptions}
use kube_bundler.Managers.Client.{KbClient, Libraries}
use kube_bundler.Managers.Config.{InstallReference}
use kube_bundler.Managers.DeployJob.{DeployInfo}
use kube_bundler.Managers.Resource
use kube_bundler.Managers.Resource.{second}

abbrev pub pod_pending : String
pod_pending = "Pending"

abbrev pub job_complete : String
job_complete = "Complete"

abbrev pub job_failed : String
job_failed = "Failed"

abbrev pub no_pods_error : String
no_pods_error = "timeout expired while waiting for job pods to be created"

abbrev pub not_ready_error : String
not_ready_error = "timeout expired while waiting for pod to become ready"

-- `job.Spec.Selector.MatchLabels` gives the pods' labels. The log of the first container is opened.
unfoldable pub first_container : Pod → Result String
first_container pod = elim pod.container_names [
  | [] ↦ panic "runtime error: index out of range [0] with length 0"
  | name ∷ _ ↦ ok name
]

-- What a round of a loop finds: its end, an error, or nothing yet.
pub data Turn (A : Type 0) : Type 0 where
  found : A → Turn A
  stop : Error → Turn A
  break_down : String → Turn A
  again : Turn A

module _ {W A : Type 0} (clock : Clock W) (body : W → Turn A × W) where
  -- A loop whose body pauses for a second where it found nothing.
  unfoldable pub each_second : ℕ → Run W A
  each_second zero w = none
  each_second (suc fuel) w =
      let (turn, w') = body w in
      let rest = each_second fuel (clock.sleep second w') in
      elim turn [
        | found a ↦ some (ok a, w')
        | stop e ↦ some (err e, w')
        | break_down why ↦ some (panic why, w')
        | again ↦ rest
      ]

module _ {W : Type 0} (clock : Clock W) where
  -- `deadlineExists && time.Now().After(expiry)`
  unfoldable pub is_past : Option ℕ → W → Bool × W
  is_past none w = (false, w)
  is_past (some expiry) w = let (time, w') = clock.now w in (ltb expiry time, w')

  -- The round finds nothing yet, unless the deadline is past.
  unfoldable pub unless_past : {A : Type 0} → Option ℕ → String → W → Turn A × W
  unfolding is_past
  unless_past expiry message w =
      let (past, w') = is_past expiry w in (if past then stop (errorf message []) else again, w')

module _ {W Key U : Type 0} (c : KbClient W Key U) (l : Libraries W U) where
  -- The tests of the round's body, on the last pod.
  unfoldable pub judge_pod : Option ℕ → Option Pod → W → Turn Pod × W
  unfolding unless_past
  judge_pod expiry none w = unless_past c.clientset.clock expiry no_pods_error w
  judge_pod expiry (some pod) w =
      let waiting = unless_past c.clientset.clock expiry not_ready_error w in
      if pod.phase == pod_pending then waiting else (found pod, w)

  unfoldable pub judge_pods : Option ℕ → Result (List Pod) → W → Turn Pod × W
  unfolding judge_pod
  judge_pods expiry (ok pods) w = judge_pod expiry (get_last? pods) w
  judge_pods expiry (err e) w = (stop (wrapped "error list pods for job" [] e), w)
  judge_pods expiry (panic why) w = (break_down why, w)

  unfoldable pub pod_round : Option ℕ → String → String → W → Turn Pod × W
  unfolding judge_pods
  pod_round expiry namespace selector w =
      let (r, w') = c.clientset.pods.list namespace selector w in judge_pods expiry r w'

  unfoldable pub get_job : InstallReference → Io W Job
  get_job ref =
      Io.annotate "couldn't fetch job %q" (text ref.name ∷ [])
        (c.clientset.jobs.get ref.namespace ref.name)

  unfoldable pub open_log : InstallReference → Pod → String → Io W ℕ
  open_log ref pod container =
      Io.annotate "error opening stream for pod %s container %s"
        (text pod.name ∷ text container ∷ [])
        (c.clientset.pods.open_log ref.namespace pod.name
          (record { container = container; follow = true; tail_lines = none }))

  unfoldable pub get_logs : ℕ → Option ℕ → InstallReference → Run W ℕ
  unfolding get_job open_log each_second pod_round first_container
  get_logs fuel expiry ref = do
    job ← once (get_job ref)
    pod ←
        each_second c.clientset.clock
          (pod_round expiry ref.namespace (c.clientset.selector job.match_labels)) fuel
    container ← once (Io.lift (first_container pod))
    once (open_log ref pod container)

  -- `io.Copy`, before the deferred close.
  copy_and_close : Bool → ℕ → Io W (Unit {0})
  copy_and_close show stream w =
      let (r, w') = Io.annotate "couldn't print logs from pod" [] (l.copy_log show stream) w in
      (r, l.close_log stream w')

  unfoldable pub print_logs : ℕ → Option ℕ → InstallReference → Bool → Run W (Unit {0})
  unfolding get_logs copy_and_close
  print_logs fuel expiry ref show = do
    out ← annotate "couldn't get logs" [] (get_logs fuel expiry ref)
    once (copy_and_close show out)

  -- An error of the logs is printed itself, and the caller goes on.
  abbrev pub try_logs : ℕ → Option ℕ → InstallReference → Bool → Run W (Unit {0})
  try_logs fuel expiry ref show = do
    r ← attempt (print_logs fuel expiry ref show)
    once (Io.pure tt)

  unfoldable pub read_job : DeployInfo → Io W DeployJob
  read_job info =
      Io.annotate "couldn't get job" []
        (Resource.get c.jobs (λ j. j.name) (λ j. j.namespace) info.name info.namespace)

  unfoldable pub latest_of : Result DeployJob → Turn String
  latest_of (ok job) = elim (get_last? job.conditions) [
    | none ↦ again
    | some condition ↦ found condition.type
  ]
  latest_of (err e) = stop e
  latest_of (panic why) = break_down why

  unfoldable pub since : ℕ → W → ℕ × W
  since start w = let (time, w') = c.clientset.clock.now w in (time - start, w')

  unfoldable pub job_round : DeployInfo → W → Turn String × W
  unfolding read_job latest_of
  job_round info w = let (r, w') = read_job info w in (latest_of r, w')

  -- The loop after its first round: each round begins with a look at the clock. The empty text is
  -- the zero value of `latestStatus`.
  unfoldable pub later_round : ℕ → DeployInfo → W → Turn String × W
  unfolding job_round since
  later_round start info w =
      let (elapsed, w') = since start w in
      elim (ltb elapsed info.timeout) [ true ↦ job_round info w' | false ↦ (found "", w') ]

  -- The first round is made in any case.
  unfoldable pub poll_status : ℕ → ℕ → DeployInfo → Run W String
  unfolding job_round each_second later_round
  poll_status fuel start info w =
      let (turn, w') = job_round info w in
      elim turn [
        | found status ↦ some (ok status, w')
        | stop e ↦ some (err e, w')
        | break_down why ↦ some (panic why, w')
        | again ↦
            each_second c.clientset.clock (later_round start info) fuel
              (c.clientset.clock.sleep second w')
      ]

  unfoldable pub failure : String → Error
  failure status =
      if status == job_failed then errorf "deploy failed" [] else errorf "timeout expired" []

  -- What follows the loop.
  unfoldable pub report : ℕ → InstallReference → Bool → String → Run W (Unit {0})
  unfolding failure print_logs
  report fuel ref show_logs status =
      let failed = once (Io.fail (failure status)) in
      if status == job_complete
      then once (Io.pure tt)
      else if show_logs
      then failed
      else (try_logs fuel none ref true >> failed)

  abbrev pub read_clock : Io W ℕ
  read_clock w = let (time, w') = c.clientset.clock.now w in (ok time, w')

  -- `context.WithTimeout` reads the clock too.
  unfoldable pub poll_job : ℕ → DeployInfo → InstallReference → Bool → Run W (Unit {0})
  unfolding print_logs poll_status report
  poll_job fuel info ref show_logs = do
    start ← once read_clock
    now ← once read_clock
    try_logs fuel (some (now + info.timeout)) ref show_logs
    status ← poll_status fuel start info
    report fuel ref show_logs status
