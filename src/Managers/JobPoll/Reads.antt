-- ===== src/Managers/JobPoll/Reads.antt =====
-- What the wait for a deploy job has read when it returns no error.
use kube_bundler.Managers.JobPoll.Laws.{Turn-cases}
use kube_bundler.Managers.JobPoll.{since}
use kube_bundler.Prelude.{
  ℕ, zero, suc, ◌+◌, ◌-◌, ◌<◌, ◌≡◌, ◌≢◌, refl, sym, ap, ◌∙◌, ltb→lt, [], ◌∷◌, ==_iff, String, Bool,
  true, false, Option, none, some, get_last?, arith, ltb, inl, inr, String-discrete, if◌then◌else◌,
  Bool-cases, ◌⊎◌,
}
use kube_bundler.Managers.Resource
use kube_bundler.Go.Errors.{text}
use kube_bundler.Go.Io
use mathlib.Core.Logic.{if_pos, if_neg}
use mathlib.Core.Path.{subst}
use kube_bundler.Go.Io.{Result, ok, err, panic, Result-cases}
use kube_bundler.Go.Run.{Gives, once, ◌>>◌, >>=-ok}
use kube_bundler.Cluster.Objects.{DeployJob, Condition}
use kube_bundler.Managers.Client.{KbClient, Libraries}
use kube_bundler.Managers.Config.{InstallReference}
use kube_bundler.Managers.DeployJob.{DeployInfo}
use kube_bundler.Managers.Resource.{second}
use kube_bundler.Managers.JobPoll.{
  Turn, found, again, each_second, job_complete, read_job, latest_of, job_round, later_round,
  poll_status, report, poll_job, try_logs, failure,
}

empty_incomplete : "" ≢ job_complete
unfolding String-discrete
empty_incomplete p = ground (arith, (==_iff "" job_complete).1 p)

module _ {W Key U : Type 0} (c : KbClient W Key U) (l : Libraries W U) where
  -- Reads of the job with this name, one after another, from the first world to the second: those before the last
  -- found a job without a condition, and the last found one whose last condition is of this type. Before each
  -- read but the first there is a pause of a second, and a look at the clock that is in time.
  pub data Reads (name namespace : String) (start timeout : ℕ) (status : String)
      : W → W → Type 0 where
    last_read :
        (job : DeployJob) (condition : Condition) {u v : W}
        → c.jobs.get name namespace u ≡ (ok job, v)
        → get_last? job.conditions ≡ some condition
        → condition.type ≡ status
        → Reads name namespace start timeout status u v
    earlier_read :
        (job : DeployJob) {u v v' : W}
        → c.jobs.get name namespace u ≡ (ok job, v)
        → get_last? job.conditions ≡ none
        → (c.clientset.clock.now (c.clientset.clock.sleep second v)).0 - start < timeout
        → Reads name namespace start timeout status
            (c.clientset.clock.now (c.clientset.clock.sleep second v)).1
            v'
        → Reads name namespace start timeout status u v'

  job_read :
      (info : DeployInfo) (u : W) (job : DeployJob)
      → (read_job c l info u).0 ≡ ok job
      → c.jobs.get info.name info.namespace u ≡ (ok job, (read_job c l info u).1)
  unfolding read_job Resource.get
  job_read info u job p =
      let got =
        Io.annotate "couldn't get resource %q" (text info.name ∷ [])
          (c.jobs.get info.name info.namespace) in
      Io.annotate-ok _ _ (c.jobs.get info.name info.namespace) u (read_job c l info u).1 job (
        Io.annotate-ok _ _ got u (read_job c l info u).1 job
          (ap (λ r. (r, (read_job c l info u).1)) p))

  judge_conditions-found :
      (o : Option Condition) (status : String)
      → elim o [ none ↦ again | some x ↦ found x.type ] ≡ found status
      → (x : Condition) × (o ≡ some x) × (x.type ≡ status)
  judge_conditions-found none status e = ground arith
  judge_conditions-found (some x) status e = (x, refl, ground arith)

  judge_conditions-again :
      (o : Option Condition) → elim o [ none ↦ again | some x ↦ found x.type ] ≡ again → o ≡ none
  judge_conditions-again none e = refl
  judge_conditions-again (some x) e = ground arith

  round-Reads :
      (info : DeployInfo) (start : ℕ) (u : W) (status : String)
      → (job_round c l info u).0 ≡ found status
      → Reads info.name info.namespace start info.timeout status u (job_round c l info u).1
  unfolding job_round latest_of
  round-Reads info start u status e = elim (Result-cases (read_job c l info u).0) [
    | inl (job, p) ↦
        let (x, q, r) = judge_conditions-found (get_last? job.conditions) status (rw p at e) in
        last_read job x (job_read info u job p) q r
    | inr (inl (x, p)) ↦ ground (arith, rw p at e)
    | inr (inr (why, p)) ↦ ground (arith, rw p at e)
  ]

  round-again :
      (info : DeployInfo) (u : W)
      → (job_round c l info u).0 ≡ again
      → (job : DeployJob) × (c.jobs.get info.name info.namespace u
          ≡ (ok job, (job_round c l info u).1))
        × (get_last? job.conditions ≡ none)
  unfolding job_round latest_of
  round-again info u e = elim (Result-cases (read_job c l info u).0) [
    | inl (job, p) ↦
        (job, job_read info u job p, judge_conditions-again (get_last? job.conditions) (rw p at e))
    | inr (inl (x, p)) ↦ ground (arith, rw p at e)
    | inr (inr (why, p)) ↦ ground (arith, rw p at e)
  ]

  -- What the later rounds of the wait, from this world on, have seen.
  abbrev Later : DeployInfo → ℕ → String → W → W → Type 0
  Later info start status w w' =
      ((c.clientset.clock.now w).0 - start < info.timeout)
      × Reads info.name info.namespace start info.timeout status (c.clientset.clock.now w).1 w'

  again-Reads :
      (info : DeployInfo) (start : ℕ) (status : String) (u w' : W)
      → (job_round c l info u).0 ≡ again
      → (status ≡ "")
        ⊎ Later info start status (c.clientset.clock.sleep second (job_round c l info u).1) w'
      → (status ≡ "") ⊎ Reads info.name info.namespace start info.timeout status u w'
  again-Reads info start status u w' p (inl none_seen) = inl none_seen
  again-Reads info start status u w' p (inr (in_time, reads)) =
      let (job, q, r) = round-again info u p in inr (earlier_read job q r in_time reads)

  in_time-round :
      (start : ℕ) (info : DeployInfo) (w : W)
      → ltb ((c.clientset.clock.now w).0 - start) info.timeout ≡ true
      → later_round c l start info w ≡ job_round c l info (c.clientset.clock.now w).1
  unfolding later_round since
  in_time-round start info w p = rw (p, later_round) refl

  late-round :
      (start : ℕ) (info : DeployInfo) (w : W)
      → ltb ((c.clientset.clock.now w).0 - start) info.timeout ≡ false
      → later_round c l start info w ≡ (found "", (c.clientset.clock.now w).1)
  unfolding later_round since
  late-round start info w p = rw (p, later_round) refl

  each_second-Later :
      (fuel start : ℕ) (info : DeployInfo) (w w' : W) (status : String)
      → Gives (each_second c.clientset.clock (later_round c l start info) fuel) w status w'
      → (status ≡ "") ⊎ Later info start status w w'
  unfolding each_second
  each_second-Later zero start info w w' status e = ground arith
  each_second-Later (suc fuel) start info w w' status e =
      let u = (c.clientset.clock.now w).1 in
      elim (Bool-cases (ltb ((c.clientset.clock.now w).0 - start) info.timeout)) [
        | inr late ↦
            let e' = rw (late-round start info w late, each_second) at e in inl (ground (arith, e'))
        | inl early ↦
            let q = in_time-round start info w early in
            elim (Turn-cases (job_round c l info u).0) [
              | inl (b, p) ↦
                  let e' = rw (q, p, each_second) at e in
                  let same : b ≡ status = ground (arith, e') in
                  let moved : (job_round c l info u).1 ≡ w' = ground (arith, e') in
                  inr (
                    ltb→lt _ _ early,
                    subst (Reads _ _ _ _ status u) moved
                        (round-Reads info start u status (p ∙ ap found same)),
                  )
              | inr (inl (x, p)) ↦ ground (arith, rw (q, p, each_second) at e)
              | inr (inr (inl (why, p))) ↦ ground (arith, rw (q, p, each_second) at e)
              | inr (inr (inr p)) ↦
                  let p' : (later_round c l start info w).0 ≡ again = ap (λ r. r.0) q ∙ p in
                  let rest =
                    each_second-Later fuel start info
                      (c.clientset.clock.sleep second (later_round c l start info w).1) w' status
                      (rw (p', each_second) at e) in
                  let moved =
                    subst
                      (λ (r : Turn String × W).
                        (status ≡ "")
                        ⊎ Later info start status (c.clientset.clock.sleep second r.1) w')
                      q rest in
                  elim (again-Reads info start status u w' p moved) [
                    | inl none_seen ↦ inl none_seen
                    | inr reads ↦ inr (ltb→lt _ _ early, reads)
                  ]
            ]
      ]

  poll_status-Reads :
      (fuel start : ℕ) (info : DeployInfo) (w w' : W) (status : String)
      → Gives (poll_status c l fuel start info) w status w'
      → (status ≡ "") ⊎ Reads info.name info.namespace start info.timeout status w w'
  unfolding poll_status
  poll_status-Reads fuel start info w w' status e = elim (Turn-cases (job_round c l info w).0) [
    | inl (b, p) ↦
        let e' = rw (p, poll_status) at e in
        let same : b ≡ status = ground (arith, e') in
        let moved : (job_round c l info w).1 ≡ w' = ground (arith, e') in
        inr (
          subst (Reads _ _ _ _ status w) moved
            (round-Reads info start w status (p ∙ ap found same)))
    | inr (inl (x, p)) ↦ ground (arith, rw (p, poll_status) at e)
    | inr (inr (inl (why, p))) ↦ ground (arith, rw (p, poll_status) at e)
    | inr (inr (inr p)) ↦
        again-Reads info start status w w' p
          (each_second-Later fuel start info _ w' status (rw (p, poll_status) at e))
  ]

  -- What follows a status that is not completion returns an error.
  never_ok :
      (fuel : ℕ) (ref : InstallReference) (show_logs : Bool) (status : String) (w w' : W)
      → ¬ Gives
          (if show_logs
            then once (Io.fail (failure c l status))
            else (try_logs c l fuel none ref true >> once (Io.fail (failure c l status))))
          w
          tt
          w'
  never_ok fuel ref true status w w' e = ground (arith, e)
  never_ok fuel ref false status w w' e =
      let (_, u, _, e') =
        >>=-ok (try_logs c l fuel none ref true) (λ _. once (Io.fail (failure c l status))) w w' tt
          e in
      ground (arith, e')

  report_complete :
      (fuel : ℕ) (ref : InstallReference) (show_logs : Bool) (status : String) (w w' : W)
      → Gives (report c l fuel ref show_logs status) w tt w'
      → (status ≡ job_complete) × (w ≡ w')
  unfolding report
  report_complete fuel ref show_logs status w w' e = elim (String-discrete status job_complete) [
    | yes p ↦ (p, ground (arith, rw (if_pos _ p) at e))
    | no n ↦ absurd (never_ok fuel ref show_logs status w w' (rw (if_neg _ n) at e))
  ]

  -- The clock was read twice, the logs were tried with a deadline, and reads of the job with this name followed
  -- up to a last condition of completion.
  pub record Polled (fuel timeout : ℕ) (name namespace : String) (ref : InstallReference)
      (show_logs : Bool) (w w' : W) : Type 0 where
    pub logged : W
    pub tried :
        Gives
          (try_logs c l fuel
            (some ((c.clientset.clock.now (c.clientset.clock.now w).1).0 + timeout))
            ref
            show_logs)
          (c.clientset.clock.now (c.clientset.clock.now w).1).1
          tt
          logged
    pub reads : Reads name namespace (c.clientset.clock.now w).0 timeout "Complete" logged w'

  -- The wait for a deploy job that returns no error reads the job with the name in the deploy's data.
  pub poll_job-Polled :
      (fuel : ℕ) (info : DeployInfo) (ref : InstallReference) (show_logs : Bool) (w w' : W)
      → Gives (poll_job c l fuel info ref show_logs) w tt w'
      → Polled fuel info.timeout info.name info.namespace ref show_logs w w'
  unfolding poll_job
  poll_job-Polled fuel info ref show_logs w w' e =
      let start = (c.clientset.clock.now w).0 in
      let (_, w1, tried, e1) =
        >>=-ok
          (try_logs c l fuel
            (some ((c.clientset.clock.now (c.clientset.clock.now w).1).0 + info.timeout)) ref
            show_logs)
          _ (c.clientset.clock.now (c.clientset.clock.now w).1).1 w' tt e in
      let (status, w2, e2, e3) =
        >>=-ok (poll_status c l fuel start info) (report c l fuel ref show_logs) w1 w' tt e1 in
      let (q, same) = report_complete fuel ref show_logs status w2 w' e3 in
      elim (poll_status-Reads fuel start info w1 w2 status e2) [
        | inl p ↦ absurd (empty_incomplete (sym p ∙ q))
        | inr seen ↦ record {
          logged = w1;
          tried = tried;
          reads =
              subst (λ s. Reads info.name info.namespace start info.timeout s w1 w') q
                (subst (Reads info.name info.namespace start info.timeout status w1) same seen);
        }
      ]
