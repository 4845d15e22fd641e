-- ===== src/Managers/JobPoll/Total.antt =====
-- The wait for a deploy job ends where the logs are shown.
use kube_bundler.Managers.JobPoll.{is_past, []}
use kube_bundler.Prelude.{
  ℕ, suc, ◌+◌, ◌-◌, ◌*◌, ◌≤◌, ◌<◌, ◌≡◌, refl, String, Bool, true, Option, none, some, List,
  get_last?, arith, ltb, inl, inr, String-discrete, Bool-cases,
}
use mathlib.Core.Logic.{if_pos, if_neg}
use kube_bundler.Go.Io.{Result, ok, err, panic, Result-cases}
use kube_bundler.Go.Io
use kube_bundler.Go.Run.{Returns, once, annotate, attempt, annotate-total, attempt-total, >>=-total}
use kube_bundler.Cluster.Objects.{Pod}
use kube_bundler.Managers.Client.{KbClient, Libraries}
use kube_bundler.Managers.Config.{InstallReference}
use kube_bundler.Managers.DeployJob.{DeployInfo}
use kube_bundler.Managers.Resource.{second}
use kube_bundler.Managers.JobPoll.{
  again, each_second, job_complete, pod_pending, pod_round, get_job, get_logs, print_logs, read_job,
  job_round, later_round, poll_status, report, poll_job, no_pods_error, not_ready_error, since,
  unless_past, judge_pod, judge_pods, try_logs, failure, first_container,
}
use kube_bundler.Managers.JobPoll.Laws.{Turn-cases, each_second-total}

-- Time does not run backwards, and a pause lasts at least as long as it should.
pub record Ticks {W Key U : Type 0} (c : KbClient W Key U) (l : Libraries W U) : Type 0 where
  pub time : W → ℕ
  pub now-ge : (w : W) → time w ≤ (c.clientset.clock.now w).0
  pub now-le : (w : W) → (c.clientset.clock.now w).0 ≤ time (c.clientset.clock.now w).1
  pub sleep-le : (n : ℕ) (w : W) → time w + n ≤ time (c.clientset.clock.sleep n w)
  pub list-le :
      (namespace selector : String) (w : W)
      → time w ≤ time (c.clientset.pods.list namespace selector w).1
  pub read-le : (info : DeployInfo) (w : W) → time w ≤ time (read_job c l info w).1

module _ {W Key U : Type 0} (c : KbClient W Key U) (l : Libraries W U) (T : Ticks c l) where
  unless_past-le :
      (expiry : ℕ) (message : String) (w : W)
      → T.time w ≤ T.time (unless_past c.clientset.clock {A = Pod} (some expiry) message w).1
  unfolding unless_past is_past
  unless_past-le expiry message w = omega (arith, T.now-ge w, T.now-le w)

  unless_past-again :
      (expiry : ℕ) (message : String) (w : W)
      → (unless_past c.clientset.clock {A = Pod} (some expiry) message w).0 ≡ again
      → T.time w ≤ expiry
  unfolding unless_past is_past
  unless_past-again expiry message w e =
      elim (Bool-cases (ltb expiry (c.clientset.clock.now w).0)) [
        | inl p ↦ ground (arith, rw p at e)
        | inr p ↦ let h = T.now-ge w in ground (arith, p)
      ]

  judge_pod-le :
      (expiry : ℕ) (o : Option Pod) (w : W) → T.time w ≤ T.time (judge_pod c l (some expiry) o w).1
  unfolding judge_pod
  judge_pod-le expiry none w = unless_past-le expiry no_pods_error w
  judge_pod-le expiry (some pod) w = elim (String-discrete pod.phase pod_pending) [
    | yes p ↦ rw (if_pos _ p) (unless_past-le expiry not_ready_error w)
    | no n ↦ rw (if_neg _ n) (omega arith)
  ]

  judge_pod-again :
      (expiry : ℕ) (o : Option Pod) (w : W)
      → (judge_pod c l (some expiry) o w).0 ≡ again
      → T.time w ≤ expiry
  unfolding judge_pod
  judge_pod-again expiry none w e = unless_past-again expiry no_pods_error w e
  judge_pod-again expiry (some pod) w e = elim (String-discrete pod.phase pod_pending) [
    | yes p ↦ unless_past-again expiry not_ready_error w (rw (if_pos _ p) at e)
    | no n ↦ ground (arith, rw (if_neg _ n) at e)
  ]

  judge_pods-le :
      (expiry : ℕ) (r : Result (List Pod)) (w : W)
      → T.time w ≤ T.time (judge_pods c l (some expiry) r w).1
  unfolding judge_pods
  judge_pods-le expiry (ok pods) w = judge_pod-le expiry (get_last? pods) w
  judge_pods-le expiry (err e) w = omega arith
  judge_pods-le expiry (panic why) w = omega arith

  judge_pods-again :
      (expiry : ℕ) (r : Result (List Pod)) (w : W)
      → (judge_pods c l (some expiry) r w).0 ≡ again
      → T.time w ≤ expiry
  unfolding judge_pods
  judge_pods-again expiry (ok pods) w h = judge_pod-again expiry (get_last? pods) w h
  judge_pods-again expiry (err e) w h = ground (arith, h)
  judge_pods-again expiry (panic why) w h = ground (arith, h)

  pod_round-total :
      (expiry fuel : ℕ) (namespace selector : String) (w : W)
      → expiry < fuel * second
      → Returns (
          each_second c.clientset.clock
            (pod_round c l (some expiry) namespace selector)
            (suc fuel)
            w)
  unfolding pod_round
  pod_round-total expiry fuel namespace selector w enough =
      each_second-total c.clientset.clock (pod_round c l (some expiry) namespace selector) T.time
        expiry T.sleep-le
        (λ u.
          let r = c.clientset.pods.list namespace selector u in
          let h = judge_pods-le expiry r.0 r.1 in omega (arith, h, T.list-le namespace selector u))
        (λ u e.
          let r = c.clientset.pods.list namespace selector u in
          let h = judge_pods-again expiry r.0 r.1 e in
          omega (arith, h, T.list-le namespace selector u))
        fuel w (omega (arith, enough))

  later_round-le :
      (start : ℕ) (info : DeployInfo) (u : W) → T.time u ≤ T.time (later_round c l start info u).1
  unfolding later_round job_round since
  later_round-le start info u =
      let v = (c.clientset.clock.now u).1 in
      elim (Bool-cases (ltb ((c.clientset.clock.now u).0 - start) info.timeout)) [
        | inl p ↦ rw (p, later_round) (omega (arith, T.now-ge u, T.now-le u, T.read-le info v))
        | inr p ↦ rw (p, later_round) (omega (arith, T.now-ge u, T.now-le u))
      ]

  later_round-again :
      (start : ℕ) (info : DeployInfo) (u : W)
      → (later_round c l start info u).0 ≡ again
      → T.time u ≤ start + info.timeout
  unfolding later_round since
  later_round-again start info u e =
      elim (Bool-cases (ltb ((c.clientset.clock.now u).0 - start) info.timeout)) [
        | inl p ↦ let h = T.now-ge u in ground (arith, p)
        | inr p ↦ ground (arith, rw (p, later_round) at e)
      ]

  poll_status-total :
      (fuel start : ℕ) (info : DeployInfo) (w : W)
      → start + info.timeout < fuel * second
      → Returns (poll_status c l (suc fuel) start info w)
  unfolding poll_status
  poll_status-total fuel start info w enough =
      let u = (job_round c l info w).1 in
      elim (Turn-cases (job_round c l info w).0) [
        | inl (a, p) ↦ ((ok a, u), rw (p, poll_status))
        | inr (inl (x, p)) ↦ ((err x, u), rw (p, poll_status))
        | inr (inr (inl (why, p))) ↦ ((panic why, u), rw (p, poll_status))
        | inr (inr (inr p)) ↦
            let (r, e) =
              each_second-total c.clientset.clock (later_round c l start info) T.time
                (start + info.timeout) T.sleep-le (later_round-le start info)
                (later_round-again start info) fuel (c.clientset.clock.sleep second u)
                (omega (arith, enough)) in
            (r, rw (p, poll_status) e)
      ]

  get_logs-total :
      (expiry fuel : ℕ) (ref : InstallReference) (w : W)
      → expiry < fuel * second
      → Returns (get_logs c l (suc fuel) (some expiry) ref w)
  unfolding get_logs
  get_logs-total expiry fuel ref w enough =
      >>=-total (once (get_job c l ref)) _ w (_, refl)
        (λ job u.
          >>=-total
            (each_second c.clientset.clock
              (pod_round c l (some expiry) ref.namespace (c.clientset.selector job.match_labels))
              (suc fuel))
            _ u
            (pod_round-total expiry fuel ref.namespace (c.clientset.selector job.match_labels) u
              enough)
            (λ pod v.
              >>=-total (once (Io.lift (first_container pod))) _ v (_, refl)
                (λ container x. (_, refl))))

  print_logs-total :
      (expiry fuel : ℕ) (ref : InstallReference) (show : Bool) (w : W)
      → expiry < fuel * second
      → Returns (print_logs c l (suc fuel) (some expiry) ref show w)
  unfolding print_logs
  print_logs-total expiry fuel ref show w enough =
      >>=-total (annotate "couldn't get logs" [] (get_logs c l (suc fuel) (some expiry) ref)) _ w
        (annotate-total "couldn't get logs" [] (get_logs c l (suc fuel) (some expiry) ref) w
          (get_logs-total expiry fuel ref w enough))
        (λ out u. (_, refl))

  try_logs-total :
      (expiry fuel : ℕ) (ref : InstallReference) (show : Bool) (w : W)
      → expiry < fuel * second
      → Returns (try_logs c l (suc fuel) (some expiry) ref show w)
  try_logs-total expiry fuel ref show w enough =
      >>=-total (attempt (print_logs c l (suc fuel) (some expiry) ref show)) _ w
        (attempt-total (print_logs c l (suc fuel) (some expiry) ref show) w
          (print_logs-total expiry fuel ref show w enough))
        (λ r u. (_, refl))

  report-total :
      (fuel : ℕ) (ref : InstallReference) (status : String) (w : W)
      → Returns (report c l fuel ref true status w)
  unfolding report
  report-total fuel ref status w = elim (String-discrete status job_complete) [
    | yes p ↦ ((ok tt, w), rw (if_pos _ p) refl)
    | no n ↦ ((err (failure c l status), w), rw (if_neg _ n) refl)
  ]

  -- On a clock that does not run backwards, with pauses that are as long as they should be: with
  -- more rounds of fuel than there are seconds up to the deadline, the wait for a deploy job that
  -- shows the logs returns.
  pub poll_job-total :
      (fuel : ℕ) (info : DeployInfo) (ref : InstallReference) (w : W)
      → (c.clientset.clock.now (c.clientset.clock.now w).1).0 + info.timeout < fuel * second
      → Returns (poll_job c l (suc fuel) info ref true w)
  unfolding poll_job
  poll_job-total fuel info ref w enough =
      let start = (c.clientset.clock.now w).0 in
      let now = (c.clientset.clock.now (c.clientset.clock.now w).1).0 in
      let began = T.now-ge (c.clientset.clock.now w).1 in
      let before = T.now-le w in
      >>=-total (try_logs c l (suc fuel) (some (now + info.timeout)) ref true) _ _
        (try_logs-total (now + info.timeout) fuel ref true _ enough)
        (λ _ u.
          >>=-total (poll_status c l (suc fuel) start info) (report c l (suc fuel) ref true) u
            (poll_status-total fuel start info u (omega (arith, enough, began, before)))
            (λ status v. report-total (suc fuel) ref status v))
