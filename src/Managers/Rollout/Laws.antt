-- ===== src/Managers/Rollout/Laws.antt =====
-- What the wait for the resources of an install has seen when it returns no error.
use kube_bundler.Prelude.{ℕ, ◌≡◌, String, false, some, List, [], ◌∷◌, inl, inr, arith, Option-cases}
use kube_bundler.Prelude.Dict.{Dict, lookup_or}
use kube_bundler.Go.Each.{Each}
use kube_bundler.Go.Io.{ok}
use kube_bundler.Go.Run.{Run, Gives, once, annotate, annotate-ok, ◌>>◌, >>=-ok}
use kube_bundler.Api.{Application, Install, Resource as AppResource}
use kube_bundler.Cluster.Objects.{CronJob}
use kube_bundler.Rollout.Done.{DeploymentRolledOut, StatefulSetRolledOut, DaemonSetRolledOut}
use kube_bundler.Resources.Handle.{Handle}
use kube_bundler.Resources.Deployment
use kube_bundler.Resources.StatefulSet
use kube_bundler.Resources.DaemonSet
use kube_bundler.Resources.Job
use kube_bundler.Resources.CronJob
use kube_bundler.Resources.Kubegres
use kube_bundler.Resources.Kubegres.Laws.{WasSeen, kubegres_wait-WasSeen}
use kube_bundler.Resources.Waits.{
  RoundTrip, Saw, deployment_wait-RolledOut, stateful_set_wait-RolledOut, daemon_set_wait-RolledOut,
}
use kube_bundler.Resources.JobWaits.{IsComplete, job_wait-IsComplete, cron_job_wait-running}
use kube_bundler.Managers.Client.{KbClient}
use kube_bundler.Managers.Config.{InstallReference}
use kube_bundler.Go.Errors.{text}
use kube_bundler.Managers.Rollout.{
  RolloutType, rollout_type, wait_resource, wait_one, wait_all, handle_of, wait, get_install,
  get_app, merged_map, dashed,
}

-- The objects survive their conversion to unstructured objects and back.
pub record Lossless {W Key U : Type 0} (c : KbClient W Key U) : Type 0 where
  pub deployments : RoundTrip c.deployments
  pub stateful_sets : RoundTrip c.stateful_sets
  pub daemon_sets : RoundTrip c.daemon_sets

module _ {W Key U : Type 0} (c : KbClient W Key U) (fuel timeout : ℕ) where
  -- A wait of that kind, from the first world to the second, saw its end within the timeout.
  abbrev pub SawEnd : RolloutType → Handle → W → W → Type 0
  SawEnd RolloutType.deployment h w w' =
      Saw c.clientset (Deployment.round c.clientset c.deployments h)
        (Deployment.expired c.clientset c.deployments h) timeout
        (λ u. (c.clientset.deployments.get h.namespace h.name u).0) DeploymentRolledOut w w'
  SawEnd RolloutType.stateful_set h w w' =
      Saw c.clientset (StatefulSet.round c.clientset c.stateful_sets h)
        (StatefulSet.expired c.clientset c.stateful_sets h) timeout
        (λ u. (c.clientset.stateful_sets.get h.namespace h.name u).0) StatefulSetRolledOut w w'
  SawEnd RolloutType.job h w w' =
      Saw c.clientset (Job.round c.clientset h) (Job.expired c.clientset h) timeout
        (λ u. (c.clientset.jobs.get h.namespace h.name u).0) IsComplete w w'
  SawEnd RolloutType.daemon_set h w w' =
      Saw c.clientset (DaemonSet.round c.clientset c.daemon_sets h)
        (DaemonSet.expired c.clientset c.daemon_sets h) timeout
        (λ u. (c.clientset.daemon_sets.get h.namespace h.name u).0) DaemonSetRolledOut w w'
  SawEnd RolloutType.kubegres h w w' =
      (sets : List Handle) × ((Kubegres.its_stateful_sets c.clientset h w).0 ≡ ok sets)
      × Each (WasSeen c.clientset c.stateful_sets h timeout) sets
          (Kubegres.its_stateful_sets c.clientset h w).1 w'
  SawEnd RolloutType.cron_job h w w' =
      Saw c.clientset (CronJob.round c.clientset h) (CronJob.expired c.clientset h) timeout
        (λ u. (c.clientset.cron_jobs.get h.namespace h.name u).0)
        (λ (a : CronJob). a.suspend ≡ some false) w w'
  SawEnd RolloutType.service h w w' = w ≡ w'

  wait_resource-SawEnd :
      Lossless c
      → (t : RolloutType) (h : Handle) (w w' : W) → Gives (wait_resource c fuel timeout t h) w tt w'
      → SawEnd t h w w'
  unfolding wait_resource
  wait_resource-SawEnd L RolloutType.deployment h w w' e =
      deployment_wait-RolledOut c.clientset h fuel timeout w w' c.deployments L.deployments e
  wait_resource-SawEnd L RolloutType.stateful_set h w w' e =
      stateful_set_wait-RolledOut c.clientset h fuel timeout w w' c.stateful_sets L.stateful_sets e
  wait_resource-SawEnd L RolloutType.job h w w' e =
      job_wait-IsComplete c.clientset h fuel timeout w w' e
  wait_resource-SawEnd L RolloutType.daemon_set h w w' e =
      daemon_set_wait-RolledOut c.clientset h fuel timeout w w' c.daemon_sets L.daemon_sets e
  wait_resource-SawEnd L RolloutType.kubegres h w w' e =
      kubegres_wait-WasSeen c.clientset c.stateful_sets h timeout L.stateful_sets fuel w w' e
  wait_resource-SawEnd L RolloutType.cron_job h w w' e =
      cron_job_wait-running c.clientset h fuel timeout w w' e
  wait_resource-SawEnd L RolloutType.service h w w' e = ground (arith, e)

  -- The list of resources is waited for up to its end or to its first service, one after another:
  -- each wait begins where the wait before it ended.
  pub data Waited (handle : AppResource → Handle) : List AppResource → W → W → Type 0 where
    at_end : (w w' : W) → w ≡ w' → Waited handle [] w w'
    at_service :
        (r : AppResource) (rs : List AppResource) (w w' : W)
        → rollout_type r.type ≡ some RolloutType.service
        → w ≡ w'
        → Waited handle (r ∷ rs) w w'
    then_next :
        (t : RolloutType) (r : AppResource) (rs : List AppResource) (w w' w'' : W)
        → rollout_type r.type ≡ some t
        → SawEnd t (handle r) w w'
        → Waited handle rs w' w''
        → Waited handle (r ∷ rs) w w''

  module _ (L : Lossless c) (install_name suffix namespace : String) where
    abbrev handle : AppResource → Handle
    handle r = handle_of c fuel timeout install_name suffix namespace r

    -- One of the other kinds, and the rest of the loop.
    wait_next-Waited :
        (t : RolloutType) (r : AppResource) (rs : List AppResource) (rest : Run W (Unit {0}))
        (w w' : W)
        → rollout_type r.type ≡ some t
        → ((u : W) → Gives rest u tt w' → Waited handle rs u w')
        → Gives
            (annotate "error waiting on resource category %q"
                (text r.category ∷ [])
                (wait_resource c fuel timeout t (handle r))
              >> rest)
            w
            tt
            w'
        → Waited handle (r ∷ rs) w w'
    wait_next-Waited t r rs rest w w' p next e =
        let m = wait_resource c fuel timeout t (handle r) in
        let format : String = "error waiting on resource category %q" in
        let args = text r.category ∷ [] in
        let (_, u, first, further) = >>=-ok (annotate format args m) (λ _. rest) w w' tt e in
        let seen =
          wait_resource-SawEnd L t (handle r) w u (annotate-ok format args m w u tt first) in
        then_next t r rs w u w' p seen (next u further)

    wait_one-Waited :
        (t : RolloutType) (r : AppResource) (rs : List AppResource) (rest : Run W (Unit {0}))
        (w w' : W)
        → rollout_type r.type ≡ some t
        → ((u : W) → Gives rest u tt w' → Waited handle rs u w')
        → Gives (wait_one c fuel timeout install_name suffix namespace r (some t) rest) w tt w'
        → Waited handle (r ∷ rs) w w'
    unfolding wait_one
    wait_one-Waited RolloutType.deployment r rs rest w w' p next e =
        wait_next-Waited RolloutType.deployment r rs rest w w' p next e
    wait_one-Waited RolloutType.stateful_set r rs rest w w' p next e =
        wait_next-Waited RolloutType.stateful_set r rs rest w w' p next e
    wait_one-Waited RolloutType.job r rs rest w w' p next e =
        wait_next-Waited RolloutType.job r rs rest w w' p next e
    wait_one-Waited RolloutType.daemon_set r rs rest w w' p next e =
        wait_next-Waited RolloutType.daemon_set r rs rest w w' p next e
    wait_one-Waited RolloutType.kubegres r rs rest w w' p next e =
        wait_next-Waited RolloutType.kubegres r rs rest w w' p next e
    wait_one-Waited RolloutType.cron_job r rs rest w w' p next e =
        wait_next-Waited RolloutType.cron_job r rs rest w w' p next e
    wait_one-Waited RolloutType.service r rs rest w w' p next e =
        at_service r rs w w' p (ground (arith, e))

    wait_all-Waited :
        (rs : List AppResource) (w w' : W)
        → Gives (wait_all c fuel timeout install_name suffix namespace rs) w tt w'
        → Waited handle rs w w'
    unfolding wait_all wait_one
    wait_all-Waited [] w w' e = at_end w w' (ground (arith, e))
    wait_all-Waited (r ∷ rs) w w' e = elim (Option-cases (rollout_type r.type)) [
      | inl p ↦ ground (arith, rw (p, wait_one) at e)
      | inr (t, p) ↦
          wait_one-Waited t r rs (wait_all c fuel timeout install_name suffix namespace rs) w w' p
            (λ u. wait_all-Waited rs u w') (rw p at e)
    ]

  -- What the wait for an install went by: the install, its application and its merged map.
  pub record WaitedFor (ref : InstallReference) (w w' : W) : Type 0 where
    pub install : Install
    pub app : Application
    pub m : Dict String
    pub got_install : W
    pub got_app : W
    pub got_map : W
    pub install_read : get_install c ref w ≡ (ok install, got_install)
    pub app_read : get_app c install ref.namespace got_install ≡ (ok app, got_app)
    pub map_read : merged_map c ref install app got_app ≡ (ok m, got_map)
    pub waited :
        Waited
          (handle_of c fuel timeout ref.name
            (dashed install.spec.suffix)
            (lookup_or "" "namespace" m))
          app.spec.resources
          got_map
          w'

  pub rollout_wait-Waited :
      Lossless c
      → (ref : InstallReference) (w w' : W) → Gives (wait c fuel timeout ref) w tt w'
      → WaitedFor ref w w'
  unfolding wait
  rollout_wait-Waited L ref w w' e =
      let (install, w1, e1, rest1) = >>=-ok (once (get_install c ref)) _ w w' tt e in
      let (app, w2, e2, rest2) = >>=-ok (once (get_app c install ref.namespace)) _ w1 w' tt rest1 in
      let (m, w3, e3, rest3) = >>=-ok (once (merged_map c ref install app)) _ w2 w' tt rest2 in
      record {
        install = install;
        app = app;
        m = m;
        got_install = w1;
        got_app = w2;
        got_map = w3;
        install_read = ground (arith, e1);
        app_read = ground (arith, e2);
        map_read = ground (arith, e3);
        waited = wait_all-Waited L _ _ _ app.spec.resources w3 w' rest3;
      }
