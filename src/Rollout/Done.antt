-- ===== src/Rollout/Done.antt =====
-- When a viewer says that a rollout is done.
use kube_bundler.Prelude.{◌≡◌, ◌≢◌, ◌↔◌, true, Option, none, some, arith}
use kube_bundler.Prelude.Int.{ℤ, ◌≤ℤ◌, ◌-ℤ◌}
use kube_bundler.Go.Io.{ok}
use kube_bundler.Cluster.Objects.{Deployment, DaemonSet, StatefulSet}
use kube_bundler.Rollout.Revision.{get_deployment_condition}
use kube_bundler.Rollout.Viewers.{View, deployment_status, daemon_set_status, stateful_set_status}
use kube_bundler.Rollout.Viewers.{rolling_update_strategy, has_timed_out}

-- A viewer says done, and reports no error.
abbrev pub IsDone : View → Type 0
IsDone v = (v.done ≡ true) × (v.error ≡ none)

-- At least as many as wanted, where a number is wanted.
abbrev pub AtLeast : Option ℤ → ℤ → Type 0
AtLeast none have = Unit
AtLeast (some wanted) have = wanted ≤ℤ have

pub record DeploymentRolledOut (d : Deployment) : Type 0 where
  pub observed : d.generation ≤ℤ d.observed_generation
  pub in_time : has_timed_out (get_deployment_condition d.conditions "Progressing") ≢ true
  pub updated : AtLeast d.spec_replicas d.updated_replicas
  pub no_old : d.replicas ≤ℤ d.updated_replicas
  pub available : d.updated_replicas ≤ℤ d.available_replicas

-- For any revision (revision 0), a deployment is done exactly if the current specification was
-- observed, the progress deadline was not exceeded, as many replicas as wanted were updated, no
-- others are left, and all updated ones are available.
pub deployment-IsDone_iff :
    (d : Deployment) → IsDone (deployment_status (ok d) (ℤ.pos 0)) ↔ DeploymentRolledOut d
unfolding deployment_status
deployment-IsDone_iff d = (λ h. ground arith, λ h. ground arith)

pub record DaemonSetRolledOut (d : DaemonSet) : Type 0 where
  pub strategy : d.update_strategy ≡ rolling_update_strategy
  pub observed : d.generation ≤ℤ d.observed_generation
  pub updated : d.desired_number_scheduled ≤ℤ d.updated_number_scheduled
  pub available : d.desired_number_scheduled ≤ℤ d.number_available

-- Whatever the revision, a daemon set is done exactly if its strategy is the rolling update, the
-- current specification was observed, and all pods that should run are updated and available.
pub daemon_set-IsDone_iff :
    (d : DaemonSet) (wanted : ℤ) → IsDone (daemon_set_status (ok d) wanted) ↔ DaemonSetRolledOut d
unfolding daemon_set_status
daemon_set-IsDone_iff d wanted = (λ h. ground arith, λ h. ground arith)

-- The parameters of the rolling update are met: with a partition, the pods above it are updated;
-- with no parameters, all pods run the update's revision.
abbrev pub RollingUpdated : StatefulSet → Option (Option ℤ) → Option ℤ → Type 0
RollingUpdated s none _ = s.update_revision ≡ s.current_revision
RollingUpdated s (some none) _ = Unit
RollingUpdated s (some (some partition)) none = Unit
RollingUpdated s (some (some partition)) (some wanted) = (wanted -ℤ partition) ≤ℤ s.updated_replicas

pub record StatefulSetRolledOut (s : StatefulSet) : Type 0 where
  pub strategy : s.update_strategy ≡ rolling_update_strategy
  pub observed : s.generation ≤ℤ s.observed_generation
  pub started : s.observed_generation ≢ ℤ.pos 0
  pub ready : AtLeast s.spec_replicas s.ready_replicas
  pub rolled : RollingUpdated s s.rolling_update s.spec_replicas

-- Whatever the revision, a stateful set is done exactly if its strategy is the rolling update, the
-- current specification was observed, as many replicas as wanted are ready, and the parameters of
-- the rolling update are met.
pub stateful_set-IsDone_iff :
    (s : StatefulSet) (wanted : ℤ)
    → IsDone (stateful_set_status (ok s) wanted) ↔ StatefulSetRolledOut s
unfolding stateful_set_status
stateful_set-IsDone_iff s wanted = (λ h. ground arith, λ h. ground arith)

-- When the viewers say done: a deployment for any revision (revision 0), a stateful set and a daemon set
-- whatever the revision. A deployment is done exactly if the current specification was observed, the progress
-- deadline was not exceeded, as many replicas as wanted were updated, no others are left, and all updated ones
-- are available. A stateful set is done exactly if its strategy is the rolling update, the
-- current specification was observed, as many replicas as wanted are ready, and the parameters of
-- the rolling update are met. A daemon set is done exactly if its strategy is the rolling update, the
-- current specification was observed, and all pods that should run are updated and available.
pub viewers-IsDone_iff :
    (d : Deployment) (s : StatefulSet) (e : DaemonSet) (wanted : ℤ)
    → (IsDone (deployment_status (ok d) (ℤ.pos 0)) ↔ DeploymentRolledOut d)
      × (IsDone (stateful_set_status (ok s) wanted) ↔ StatefulSetRolledOut s)
      × (IsDone (daemon_set_status (ok e) wanted) ↔ DaemonSetRolledOut e)
viewers-IsDone_iff d s e wanted =
    (deployment-IsDone_iff d, stateful_set-IsDone_iff s wanted, daemon_set-IsDone_iff e wanted)
