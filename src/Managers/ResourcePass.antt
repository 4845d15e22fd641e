-- ===== src/Managers/ResourcePass.antt =====
-- managers/status_resource.go: one round of the loop that looks at the resources of all installs.
use kube_bundler.Prelude.{
  ℕ, ◌*◌, String, ◌<>◌, Bool, Option, none, some, List, [], ◌∷◌, ◌++◌, ◌==◌, if◌then◌else◌,
}
use kube_bundler.Prelude.Dict.{Dict, lookup, insert}
use kube_bundler.Go.Errors.{Error}
use kube_bundler.Go.Io.{Result, ok, err, panic, Io, pure, crash, attempt, error_of, ◌>>=◌, ◌>>◌}
use kube_bundler.Api.{Application, Install, Resource as AppResource}
use kube_bundler.Resources.Handle.{Handle, new_handle}
use kube_bundler.Resources.Deployment
use kube_bundler.Resources.StatefulSet
use kube_bundler.Resources.DaemonSet
use kube_bundler.Resources.Job
use kube_bundler.Resources.CronJob
use kube_bundler.Resources.Kubegres
use kube_bundler.Managers.Client.{KbClient}
use kube_bundler.Managers.Config
use kube_bundler.Managers.Resource
use kube_bundler.Managers.Resource.{second}
use kube_bundler.Managers.Rollout.{RolloutType, rollout_type}
use kube_bundler.Managers.Status.{calculate_status}

-- `Error` is the error of the fetch; its text is what is reported.
pub record ResourceStatus : Type 0 where
  pub category : String
  pub service : String
  pub name : String
  pub type : String
  pub status : String
  pub error : Option Error
  pub last_updated : ℕ

-- `statusMap`
unfoldable pub status_value : String → ℕ
status_value s =
    if s == "stopped"
    then 1
    else if s == "degraded"
    then 2
    else if s == "impacted"
    then 3
    else if s == "up"
    then 4
    else 0

unfoldable pub application_map : List Application → Dict Application → Dict Application
application_map [] m = m
application_map (a ∷ apps) m = application_map apps (insert a.spec.name a m)

-- `applicationMap[name].Spec.Resources`: a missing application has no resources.
unfoldable pub resources_of : Option Application → List AppResource
resources_of none = []
resources_of (some app) = app.spec.resources

-- The name of a resource, with the suffix of its install.
unfoldable pub resource_name : Install → AppResource → String
resource_name i r = if i.spec.suffix == "" then r.name else r.name <> ("-" <> i.spec.suffix)

-- A gauge is set under its labels.
module _ {W Key U : Type 0} (c : KbClient W Key U) (set_gauge : List String → ℕ → W → W) where
  -- `Fetch` and `NeedsQuorum`, by the type that the switch chose. A service is no such type.
  unfoldable pub fetch_of : RolloutType → Option ((Handle → Io W Handle) × Bool)
  fetch_of RolloutType.cron_job = some (CronJob.fetch c.clientset, CronJob.needs_quorum)
  fetch_of RolloutType.daemon_set = some (DaemonSet.fetch c.clientset, DaemonSet.needs_quorum)
  fetch_of RolloutType.deployment = some (Deployment.fetch c.clientset, Deployment.needs_quorum)
  fetch_of RolloutType.job = some (Job.fetch c.clientset, Job.needs_quorum)
  fetch_of RolloutType.kubegres = some (Kubegres.fetch c.clientset, Kubegres.needs_quorum)
  fetch_of RolloutType.stateful_set = some (StatefulSet.fetch c.clientset, StatefulSet.needs_quorum)
  fetch_of RolloutType.service = none

  -- The counts after a fetch: one that fails leaves the handle as it was.
  unfoldable pub fetched_handle : Handle → Result Handle → Handle
  fetched_handle h (ok found) = found
  fetched_handle h (err e) = h
  fetched_handle h (panic why) = h

  read_clock : Io W ℕ
  read_clock w = let (time, w') = c.clientset.clock.now w in (ok time, w')

  report_gauge : List String → ℕ → Io W (Unit {0})
  report_gauge labels value w = (ok tt, set_gauge labels value w)

  unfoldable pub status_of :
      Install → AppResource → Handle → Bool → Result Handle → ℕ → ResourceStatus
  unfolding fetched_handle calculate_status
  status_of i r h needs_quorum fetched time =
      let found = fetched_handle h fetched in
      record {
        category = r.category;
        service = i.name;
        name = h.name;
        type = r.type;
        status = calculate_status found.available_replicas found.total_replicas needs_quorum;
        error = error_of fetched;
        last_updated = time;
      }

  unfoldable pub fetch_status :
      Install → AppResource → Handle → (Handle → Io W Handle) × Bool → Io W (List ResourceStatus)
  unfolding status_of report_gauge read_clock status_value
  fetch_status i r h (fetch, needs_quorum) = do
    fetched ← attempt (fetch h)
    time ← read_clock
    report_gauge (h.name ∷ r.type ∷ i.name ∷ r.category ∷ [])
        (status_value (status_of i r h needs_quorum fetched time).status)
    pure (status_of i r h needs_quorum fetched time ∷ [])

  -- The types that are supported.
  unfoldable pub supported : String → Option ((Handle → Io W Handle) × Bool)
  unfolding rollout_type fetch_of
  supported type = elim (rollout_type type) [ none ↦ none | some t ↦ fetch_of t ]

  -- After the namespace was read: a resource without one, or of another type, is passed over.
  unfoldable pub in_namespace : Install → AppResource → Result String → Io W (List ResourceStatus)
  unfolding supported fetch_status resource_name
  in_namespace i r (err e) = pure []
  in_namespace i r (panic why) = crash why
  in_namespace i r (ok ns) = if ns == "" then pure [] else elim (supported r.type) [
    | none ↦ pure []
    | some f ↦ fetch_status i r (new_handle r.category i.name (resource_name i r) ns) f
  ]

  unfoldable pub resource_statuses : Install → List AppResource → Io W (List ResourceStatus)
  unfolding in_namespace
  resource_statuses i [] = pure []
  resource_statuses i (r ∷ rs) = do
    ns ← attempt (
        Config.get c.installs c.applications c.secrets c.entropy
          (record { name = i.name; namespace = "default" }) "namespace")
    found ← in_namespace i r ns
    more ← resource_statuses i rs
    pure (found ++ more)

  unfoldable pub install_statuses : Dict Application → List Install → Io W (List ResourceStatus)
  unfolding resource_statuses resources_of
  install_statuses apps [] = pure []
  install_statuses apps (i ∷ rest) = do
    found ← resource_statuses i (resources_of (lookup i.spec.application apps))
    more ← install_statuses apps rest
    pure (found ++ more)

  pause : ℕ → Io W (Unit {0})
  pause seconds w = (ok tt, c.clientset.clock.sleep (seconds * second) w)

  -- The rest of a round, with the results that were there before it.
  with_installs :
      List ResourceStatus → List Application → Result (List Install) → Io W (List ResourceStatus)
  unfolding install_statuses application_map pause
  with_installs old apps (err e) = do pause 30; pure old
  with_installs old apps (panic why) = crash why
  with_installs old apps (ok installs) = do
    found ← install_statuses (application_map apps []) installs
    pause 60
    pure found

  with_apps : List ResourceStatus → Result (List Application) → Io W (List ResourceStatus)
  unfolding with_installs pause
  with_apps old (err e) = do pause 30; pure old
  with_apps old (panic why) = crash why
  with_apps old (ok apps) = do
    installs ← attempt (Resource.list c.installs (λ i. i.name) (λ i. i.namespace) "default")
    with_installs old apps installs

  -- One round: what `resourceStatusResults` holds after it.
  unfoldable pub resource_round : List ResourceStatus → Io W (List ResourceStatus)
  unfolding with_apps
  resource_round old = do
    apps ← attempt (Resource.list c.applications (λ a. a.name) (λ a. a.namespace) "default")
    with_apps old apps
