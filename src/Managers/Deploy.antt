-- ===== src/Managers/Deploy.antt =====
-- managers/deploy.go, smoketest.go and deploysmoketest.go: the deploy of an install and its smoke
-- test, by jobs in the cluster.
pub mod Laws
pub mod Steps
use kube_bundler.Prelude.{ℕ, String, ◌<>◌, Bool, [], ◌∷◌, ◌==◌, if◌then◌else◌, none}
use kube_bundler.Go.Errors.{text}
use kube_bundler.Go.Io
use kube_bundler.Go.Run.{Run, once, annotate, ◌>>=◌, ◌>>◌}
use kube_bundler.Managers.Client.{KbClient, Libraries}
use kube_bundler.Managers.Config.{InstallReference}
use kube_bundler.Managers.DeployJob.{
  DeployInfo, action_apply, action_apply_outputs, action_delete, create_or_patch_configmap,
  create_job,
}
use kube_bundler.Managers.JobPoll.{poll_job, get_logs}
use kube_bundler.Managers.Prepare.{DeployOpts, prepare}
use kube_bundler.Managers.Resource
use kube_bundler.Managers.Rollout
use kube_bundler.Managers.Util.{action_smoketest}

module _ {W Key U : Type 0} (c : KbClient W Key U) (l : Libraries W U) (fuel : ℕ) where
  unfoldable pub delete_job : InstallReference → String → Run W (Unit {0})
  delete_job ref action = annotate "couldn't delete job" [] (
      Resource.delete c.jobs c.clientset.clock
        (if action == action_smoketest then ref.name <> "-smoketest" else ref.name) ref.namespace
        fuel)

  unfoldable pub delete_install : InstallReference → Run W (Unit {0})
  delete_install ref =
      annotate "couldn't delete install" []
        (Resource.delete c.installs c.clientset.clock ref.name ref.namespace fuel)

  unfoldable pub delete : InstallReference → Run W (Unit {0})
  unfolding delete_job delete_install
  delete ref = delete_job ref action_apply >> delete_job ref action_smoketest >> delete_install ref

  -- The steps of the second half of `Deploy`, each with its error message.
  unfoldable pub clear_job : DeployInfo → InstallReference → Run W (Unit {0})
  unfolding delete_job
  clear_job info ref =
      annotate "couldn't delete job for %q" (text info.name ∷ []) (delete_job ref info.action)

  unfoldable pub write_configmap : DeployInfo → Run W (Unit {0})
  write_configmap info = once (
      Io.annotate "couldn't create or update configmap for %q" (text info.name ∷ [])
        (create_or_patch_configmap c l info))

  unfoldable pub start_job : DeployInfo → Run W (Unit {0})
  start_job info =
      once (Io.annotate "couldn't create job for %q" (text info.name ∷ []) (create_job c l info))

  unfoldable pub finish_job : DeployInfo → InstallReference → Bool → Run W (Unit {0})
  finish_job info ref show_logs =
      annotate "couldn't poll job for %q" (text info.name ∷ [])
        (poll_job c l fuel info ref show_logs)

  unfoldable pub finish_rollout : DeployInfo → InstallReference → Run W (Unit {0})
  finish_rollout info ref =
      annotate "failed waiting for resources for %q" (text info.name ∷ [])
        (Rollout.wait c fuel info.timeout ref)

  -- The second half of `Deploy`.
  unfoldable pub execute : DeployInfo → InstallReference → Bool → Run W (Unit {0})
  unfolding clear_job write_configmap start_job finish_job finish_rollout
  execute info ref show_logs = do
    clear_job info ref
    write_configmap info
    start_job info
    finish_job info ref show_logs
    if info.action == action_delete then once (Io.pure tt) else finish_rollout info ref

  unfoldable pub deploy : InstallReference → DeployOpts → Bool → Run W (Unit {0})
  unfolding execute
  deploy ref opts show_logs = once (prepare c l ref opts) >>= λ info. execute info ref show_logs

  unfoldable pub smoketest : InstallReference → Bool → ℕ → Run W (Unit {0})
  unfolding deploy
  smoketest ref show_logs timeout =
      annotate "smoketest failed for '%s'" (text ref.name ∷ [])
        (deploy ref (record { action = action_smoketest; timeout = timeout }) show_logs)

  -- `(*SmoketestManager).GetLogs`, with a context that has no deadline.
  unfoldable pub smoketest_logs : InstallReference → Run W ℕ
  smoketest_logs ref = get_logs c l fuel none ref

  unfoldable pub deploy_smoketest : InstallReference → Bool → ℕ → Run W (Unit {0})
  unfolding smoketest
  deploy_smoketest ref show_logs timeout = do
    annotate "couldn't execute deploy for '%s'" (text ref.name ∷ [])
        (deploy ref (record { action = action_apply_outputs; timeout = timeout }) show_logs)
    annotate "couldn't run smoketest for %q" (text ref.name ∷ []) (smoketest ref show_logs timeout)
