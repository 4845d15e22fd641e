-- ===== src/Managers/Deploy/Laws.antt =====
-- What a deploy and a smoke test have seen when they return no error.
use kube_bundler.Prelude.{
  ℕ, String, ◌<>◌, ◌≡◌, refl, ◌⊎◌, inl, inr, Bool, [], ◌∷◌, String-discrete, arith, if◌then◌else◌,
  ◌==◌,
}
use mathlib.Core.Logic.{if_pos, if_neg}
use kube_bundler.Go.Io.{ok, bind-ok}
use kube_bundler.Go.Io
use kube_bundler.Go.Run.{Gives, once, annotate-ok, >>=-ok}
use kube_bundler.Go.Errors.{text}
use kube_bundler.Managers.Client.{KbClient, Libraries}
use kube_bundler.Managers.Config.{InstallReference}
use kube_bundler.Managers.DeployJob.{DeployInfo, action_delete, deploy_job}
use kube_bundler.Managers.JobPoll.{poll_job}
use kube_bundler.Managers.Deploy.Steps.{
  Prepared, prepare-Prepared, JobNamed, deploy_job-JobNamed, clear_job-Requested, start_job-created,
  Written, write_configmap-Written,
}
use kube_bundler.Managers.JobPoll.Reads.{Polled, poll_job-Polled}
use kube_bundler.Managers.Resource.Laws.{Requested}
use mathlib.Core.Path.{subst}
use kube_bundler.Managers.Prepare.{DeployOpts, prepare}
use kube_bundler.Managers.Rollout
use kube_bundler.Managers.Rollout.Laws.{Lossless, WaitedFor, rollout_wait-Waited}
use kube_bundler.Managers.Util.{action_smoketest}
use kube_bundler.Managers.Deploy.{
  clear_job, write_configmap, start_job, finish_job, finish_rollout, execute, deploy, smoketest,
}

module _ {W Key U : Type 0} (c : KbClient W Key U) (l : Libraries W U) (fuel : ℕ) where
  -- How a deploy came to its end, step by step: what was prepared, the removal that was requested of an earlier
  -- job, the config map, the job that was created, its condition, and, but for the action of deletion, the wait
  -- for the resources.
  pub record Deployed (ref : InstallReference) (opts : DeployOpts) (show_logs : Bool) (w w' : W)
      : Type 0 where
    pub info : DeployInfo
    pub ready : W
    pub prepared : prepare c l ref opts w ≡ (ok info, ready)
    pub named : Prepared c l ref opts info
    pub job_named : JobNamed opts.action ref (deploy_job info).name
    pub cleared : W
    pub old_name : String
    pub old_named : JobNamed opts.action ref old_name
    pub old_cleared : Requested c.jobs c.clientset.clock old_name ref.namespace ready cleared
    pub configured : W
    pub is_configured : Written c l fuel info cleared configured
    pub created : W
    pub is_created : c.jobs.create (deploy_job info) configured ≡ (ok tt, created)
    pub polled : W
    pub is_polled : Polled c l fuel opts.timeout ref.name ref.namespace ref show_logs created polled
    pub rolled_out :
        ((opts.action ≡ action_delete) × (polled ≡ w'))
        ⊎ WaitedFor c fuel opts.timeout ref polled w'

  rest_rolled_out :
      Lossless c
      → (info : DeployInfo) (ref : InstallReference) (u w' : W)
      → Gives
          (if info.action == action_delete
            then once (Io.pure tt)
            else finish_rollout c l fuel info ref)
          u
          tt
          w'
      → ((info.action ≡ action_delete) × (u ≡ w')) ⊎ WaitedFor c fuel info.timeout ref u w'
  unfolding finish_rollout
  rest_rolled_out L info ref u w' e = elim (String-discrete info.action action_delete) [
    | yes p ↦ inl (p, ground (arith, rw (if_pos _ p) at e))
    | no n ↦
        let e' = (rw (if_neg _ n) at e) in
        let waits =
          annotate-ok "failed waiting for resources for %q" (text info.name ∷ [])
            (Rollout.wait c fuel info.timeout ref) u w' tt e' in
        inr (rollout_wait-Waited c fuel info.timeout L ref u w' waits)
  ]

  -- If objects survive their conversion and a deploy returns no error, then, one after another: the removal of an earlier job
  -- was requested, the texts of the install were encoded and its config map was written with them, and the job was
  -- created. Both jobs are named after the install, those of a smoke test with "-smoketest" behind it. Reads of the
  -- job with the install's own name followed, of which the last gave a last condition of completion; and, unless the
  -- action is deletion, the wait for the resources of the install succeeded.
  pub deploy-Deployed :
      Lossless c
      → (ref : InstallReference) (opts : DeployOpts) (show_logs : Bool) (w w' : W)
      → Gives (deploy c l fuel ref opts show_logs) w tt w'
      → Deployed ref opts show_logs w w'
  unfolding deploy execute finish_job
  deploy-Deployed L ref opts show_logs w w' e =
      let (info, w1, e0, e1) = >>=-ok (once (prepare c l ref opts)) _ w w' tt e in
      let (_, w2, clear, e2) = >>=-ok (clear_job c l fuel info ref) _ w1 w' tt e1 in
      let (_, w3, write, e3) = >>=-ok (write_configmap c l fuel info) _ w2 w' tt e2 in
      let (_, w4, start, e4) = >>=-ok (start_job c l fuel info) _ w3 w' tt e3 in
      let (_, w5, finish, e5) = >>=-ok (finish_job c l fuel info ref show_logs) _ w4 w' tt e4 in
      let polled =
        annotate-ok "couldn't poll job for %q" (text info.name ∷ [])
          (poll_job c l fuel info ref show_logs) w4 w5 tt finish in
      let p : prepare c l ref opts w ≡ (ok info, w1) = ground (arith, e0) in
      let N = prepare-Prepared c l ref opts info w w1 p in
      let (old, old_named, request) = clear_job-Requested c l fuel info ref w1 w2 clear in
      let seen = poll_job-Polled c l fuel info ref show_logs w4 w5 polled in
      let seen1 =
        subst (λ t. Polled c l fuel t info.name info.namespace ref show_logs w4 w5) N.timeout_eq
          seen in
      let seen2 =
        subst (λ n. Polled c l fuel opts.timeout n info.namespace ref show_logs w4 w5) N.name_eq
          seen1 in
      let rest = rest_rolled_out L info ref w5 w' e5 in
      let rest1 =
        subst (λ t. ((info.action ≡ action_delete) × (w5 ≡ w')) ⊎ WaitedFor c fuel t ref w5 w')
          N.timeout_eq rest in
      record {
        info = info;
        ready = w1;
        prepared = p;
        named = N;
        job_named =
            subst (λ a. JobNamed a ref (deploy_job info).name) N.action_eq
              (deploy_job-JobNamed info ref N.name_eq);
        cleared = w2;
        old_name = old;
        old_named = subst (λ a. JobNamed a ref old) N.action_eq old_named;
        old_cleared = request;
        configured = w3;
        is_configured = write_configmap-Written c l fuel info w2 w3 write;
        created = w4;
        is_created = start_job-created c l fuel info w3 w4 start;
        polled = w5;
        is_polled =
            subst (λ n. Polled c l fuel opts.timeout ref.name n ref show_logs w4 w5) N.namespace_eq
              seen2;
        rolled_out =
            subst (λ a. ((a ≡ action_delete) × (w5 ≡ w')) ⊎ WaitedFor c fuel opts.timeout ref w5 w')
              N.action_eq rest1;
      }

  smoketest-named :
      (ref : InstallReference) (name : String)
      → JobNamed "smoketest" ref name
      → name ≡ ref.name <> "-smoketest"
  smoketest-named ref name (inl (_, p)) = p
  smoketest-named ref name (inr (n, _)) = absurd (n refl)

  -- If objects survive their conversion and a smoke test returns no error, then it has deployed
  -- the install with the action of a smoke test: the job that was created is named after the install with "-smoketest" behind it,
  -- and the job whose completion was then read is named after the install alone.
  pub smoketest-Deployed :
      Lossless c
      → (ref : InstallReference) (show_logs : Bool) (timeout : ℕ) (w w' : W)
      → Gives (smoketest c l fuel ref show_logs timeout) w tt w'
      → (d : Deployed ref (record { action = "smoketest"; timeout = timeout }) show_logs w w')
        × ((deploy_job d.info).name ≡ ref.name <> "-smoketest")
        × (c.jobs.create (deploy_job d.info) d.configured ≡ (ok tt, d.created))
        × Polled c l fuel timeout ref.name ref.namespace ref show_logs d.created d.polled
  unfolding smoketest
  smoketest-Deployed L ref show_logs timeout w w' e =
      let opts : DeployOpts = record { action = action_smoketest; timeout = timeout } in
      let d = deploy-Deployed L ref opts show_logs w w' (
        annotate-ok "smoketest failed for '%s'" (text ref.name ∷ [])
          (deploy c l fuel ref opts show_logs) w w' tt e) in
      (d, smoketest-named ref (deploy_job d.info).name d.job_named, d.is_created, d.is_polled)
