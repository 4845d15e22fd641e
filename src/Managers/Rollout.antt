-- ===== src/Managers/Rollout.antt =====
-- managers/rollout.go: the wait for all resources of an install.
pub mod Laws
use kube_bundler.Prelude.{
  ℕ, String, ◌<>◌, Bool, Option, none, some, List, [], ◌∷◌, ◌==◌, if◌then◌else◌,
}
use kube_bundler.Prelude.Dict.{Dict, lookup_or}
use kube_bundler.Go.Errors.{errorf, text}
use kube_bundler.Go.Io.{Io, ok, fail}
use kube_bundler.Go.Io
use kube_bundler.Go.Run.{Run, once, annotate, ◌>>=◌, ◌>>◌}
use kube_bundler.Api.{Application, Install, Resource as AppResource}
use kube_bundler.Parameter.Manager.{get_merged_map}
use kube_bundler.Resources.Handle.{Handle, new_handle}
use kube_bundler.Resources.Deployment
use kube_bundler.Resources.StatefulSet
use kube_bundler.Resources.DaemonSet
use kube_bundler.Resources.Job
use kube_bundler.Resources.CronJob
use kube_bundler.Resources.Kubegres
use kube_bundler.Managers.Client.{KbClient}
use kube_bundler.Managers.Config.{InstallReference}
use kube_bundler.Managers.Resource

pub data RolloutType : Type 0 where
  deployment stateful_set job daemon_set kubegres cron_job service : RolloutType

-- The cases of the switch.
unfoldable pub rollout_type : String → Option RolloutType
rollout_type t =
    if t == "deployment"
    then some RolloutType.deployment
    else if t == "statefulset"
    then some RolloutType.stateful_set
    else if t == "job"
    then some RolloutType.job
    else if t == "daemonset"
    then some RolloutType.daemon_set
    else if t == "kubegres"
    then some RolloutType.kubegres
    else if t == "cronjob"
    then some RolloutType.cron_job
    else if t == "service"
    then some RolloutType.service
    else none

-- `fmt.Sprintf("%s-%s", install.Spec.Application, install.Spec.Version)`
abbrev pub app_name : Install → String
app_name install = install.spec.application <> ("-" <> install.spec.version)

unfoldable pub dashed : String → String
dashed suffix = if suffix == "" then suffix else "-" <> suffix

module _ {W Key U : Type 0} (c : KbClient W Key U) where
  unfoldable pub get_install : InstallReference → Io W Install
  get_install ref =
      Io.annotate "couldn't get install %q" (text ref.name ∷ [])
        (Resource.get c.installs (λ i. i.name) (λ i. i.namespace) ref.name ref.namespace)

  unfoldable pub get_app : Install → String → Io W Application
  get_app install namespace =
      Io.annotate "couldn't get Application %q" (text (app_name install) ∷ [])
        (Resource.get c.applications (λ a. a.name) (λ a. a.namespace) (app_name install) namespace)

  unfoldable pub merged_map : InstallReference → Install → Application → Io W (Dict String)
  merged_map ref install app = Io.annotate "couldn't get merged map" [] (
      get_merged_map c.secrets c.entropy (record {
        install_name = ref.name;
        definitions = app.spec.parameter_definitions;
        parameters = install.spec.parameters;
      }))

module _ {W Key U : Type 0} (c : KbClient W Key U) (fuel timeout : ℕ) where
  -- `rsrc.Wait(timeout)`, by the type that the switch chose. No service is waited for.
  unfoldable pub wait_resource : RolloutType → Handle → Run W (Unit {0})
  wait_resource RolloutType.deployment h = Deployment.wait c.clientset c.deployments h fuel timeout
  wait_resource RolloutType.stateful_set h =
      StatefulSet.wait c.clientset c.stateful_sets h fuel timeout
  wait_resource RolloutType.job h = Job.wait c.clientset h fuel timeout
  wait_resource RolloutType.daemon_set h = DaemonSet.wait c.clientset c.daemon_sets h fuel timeout
  wait_resource RolloutType.kubegres h = Kubegres.wait c.clientset c.stateful_sets h fuel timeout
  wait_resource RolloutType.cron_job h = CronJob.wait c.clientset h fuel timeout
  wait_resource RolloutType.service h = once (Io.pure tt)

  module _ (install_name suffix namespace : String) where
    abbrev pub handle_of : AppResource → Handle
    handle_of r = new_handle r.category install_name (r.name <> suffix) namespace

    -- The body of the loop, before what is left of the loop: a service ends it.
    unfoldable pub wait_one : AppResource → Option RolloutType → Run W (Unit {0}) → Run W (Unit {0})
    unfolding wait_resource
    wait_one r none rest =
        once (Io.fail (errorf "unrecognized resource rollout type: %q" (text r.type ∷ [])))
    wait_one r (some RolloutType.service) rest = once (Io.pure tt)
    wait_one r (some t) rest =
        annotate "error waiting on resource category %q" (text r.category ∷ [])
          (wait_resource t (handle_of r))
        >> rest

    unfoldable pub wait_all : List AppResource → Run W (Unit {0})
    unfolding rollout_type wait_one
    wait_all [] = once (Io.pure tt)
    wait_all (r ∷ rs) = wait_one r (rollout_type r.type) (wait_all rs)

  unfoldable pub wait : InstallReference → Run W (Unit {0})
  unfolding get_install get_app merged_map wait_all dashed
  wait ref = do
    install ← once (get_install c ref)
    app ← once (get_app c install ref.namespace)
    m ← once (merged_map c ref install app)
    wait_all ref.name (dashed install.spec.suffix) (lookup_or "" "namespace" m) app.spec.resources
