-- ===== src/Rollout/Viewers.antt =====
-- The three status viewers. Each is given the outcome of the conversion of its object, and
-- returns a message, whether the rollout is done, and an error.
use kube_bundler.Prelude.{String, Bool, true, false, ◌||◌, not, Option, none, some, List, [], ◌∷◌}
use kube_bundler.Prelude.{◌==◌, if◌then◌else◌}
use kube_bundler.Prelude.Int.{ℤ, ltb_ℤ, leb_ℤ, eqb_ℤ, ◌-ℤ◌}
use kube_bundler.Go.Errors.{Arg, Error, errorf, text, int}
use kube_bundler.Go.Io.{Result, ok, err, panic}
use kube_bundler.Cluster.Objects.{Condition, Deployment, DaemonSet, StatefulSet}
use kube_bundler.Rollout.Revision.{revision, get_deployment_condition, timed_out_reason}

pub record Message : Type 0 where
  pub format : String
  pub args : List Arg

pub record View : Type 0 where
  pub message : Message
  pub done : Bool
  pub error : Option Error

abbrev pub waiting : String → List Arg → View
waiting format args = record {
  message = record { format = format; args = args };
  done = false;
  error = none;
}

abbrev pub finished : String → List Arg → View
finished format args = record {
  message = record { format = format; args = args };
  done = true;
  error = none;
}

abbrev pub refused : Bool → Error → View
refused done e = record { message = record { format = ""; args = [] }; done = done; error = some e }

-- The test of `revision > 0`, which ends in an error or lets the viewer go on.
check_revision : Deployment → ℤ → Option Error
check_revision d wanted =
    if not (ltb_ℤ (ℤ.pos 0) wanted) then none else elim (revision d.annotations) [
      | ok have ↦
          if eqb_ℤ wanted have
          then none
          else some (
              errorf "desired revision (%d) is different from the running revision (%d)"
                (int wanted ∷ int have ∷ []))
      | err e ↦ some (errorf "cannot get the revision of deployment %q: %v" (text d.name ∷ []))
      | panic why ↦ none
    ]

abbrev pub has_timed_out : Option Condition → Bool
has_timed_out none = false
has_timed_out (some c) = c.reason == timed_out_reason

-- `p != nil && x < *p`
abbrev pub less_than : ℤ → Option ℤ → Bool
less_than x none = false
less_than x (some r) = ltb_ℤ x r

abbrev pub or_zero : Option ℤ → ℤ
or_zero none = ℤ.pos 0
or_zero (some r) = r

deployment_view : Deployment → View
deployment_view d =
    if leb_ℤ d.generation d.observed_generation
    then (if has_timed_out (get_deployment_condition d.conditions "Progressing")
        then refused false
            (errorf "deployment %q exceeded its progress deadline" (text d.name ∷ []))
        else if less_than d.updated_replicas d.spec_replicas
        then waiting
            "Waiting for deployment %q rollout to finish: %d out of %d new replicas have been updated...\n"
            (text d.name ∷ int d.updated_replicas ∷ int (or_zero d.spec_replicas) ∷ [])
        else if ltb_ℤ d.updated_replicas d.replicas
        then waiting
            "Waiting for deployment %q rollout to finish: %d old replicas are pending termination...\n"
            (text d.name ∷ int (d.replicas -ℤ d.updated_replicas) ∷ [])
        else if ltb_ℤ d.available_replicas d.updated_replicas
        then waiting
            "Waiting for deployment %q rollout to finish: %d of %d updated replicas are available...\n"
            (text d.name ∷ int d.available_replicas ∷ int d.updated_replicas ∷ [])
        else finished "deployment %q successfully rolled out\n" (text d.name ∷ []))
    else waiting "Waiting for deployment spec update to be observed...\n" []

not_converted : Error → View
not_converted e = refused false (errorf "failed to convert %T to %T: %v" [])

unfoldable pub deployment_status : Result Deployment → ℤ → View
unfolding check_revision deployment_view not_converted
deployment_status (ok d) wanted = elim (check_revision d wanted) [
  | some e ↦ refused false e
  | none ↦ deployment_view d
]
deployment_status (err e) wanted = not_converted e
deployment_status (panic why) wanted = not_converted (errorf why [])

abbrev pub rolling_update_strategy : String
rolling_update_strategy = "RollingUpdate"

unfoldable pub daemon_set_status : Result DaemonSet → ℤ → View
unfolding not_converted
daemon_set_status (err e) wanted = not_converted e
daemon_set_status (panic why) wanted = not_converted (errorf why [])
daemon_set_status (ok d) wanted =
    if not (d.update_strategy == rolling_update_strategy)
    then refused true (
        errorf "rollout status is only available for %s strategy type"
          (text rolling_update_strategy ∷ []))
    else if leb_ℤ d.generation d.observed_generation
    then (if ltb_ℤ d.updated_number_scheduled d.desired_number_scheduled
        then waiting
            "Waiting for daemon set %q rollout to finish: %d out of %d new pods have been updated...\n"
            (text d.name ∷ int d.updated_number_scheduled ∷ int d.desired_number_scheduled ∷ [])
        else if ltb_ℤ d.number_available d.desired_number_scheduled
        then waiting
            "Waiting for daemon set %q rollout to finish: %d of %d updated pods are available...\n"
            (text d.name ∷ int d.number_available ∷ int d.desired_number_scheduled ∷ [])
        else finished "daemon set %q successfully rolled out\n" (text d.name ∷ []))
    else waiting "Waiting for daemon set spec update to be observed...\n" []

-- The part below the test of `RollingUpdate != nil`: the pods above the partition.
partitioned_view : StatefulSet → Option ℤ → Option ℤ → View
partitioned_view s (some replicas) (some partition) =
    if ltb_ℤ s.updated_replicas (replicas -ℤ partition)
    then waiting
        "Waiting for partitioned roll out to finish: %d out of %d new pods have been updated...\n"
        (int s.updated_replicas ∷ int (replicas -ℤ partition) ∷ [])
    else finished "partitioned roll out complete: %d new pods have been updated...\n"
        (int s.updated_replicas ∷ [])
partitioned_view s _ _ =
    finished "partitioned roll out complete: %d new pods have been updated...\n"
      (int s.updated_replicas ∷ [])

rolling_view : StatefulSet → Option (Option ℤ) → View
unfolding partitioned_view
rolling_view s (some partition) = partitioned_view s s.spec_replicas partition
rolling_view s none =
    if not (s.update_revision == s.current_revision)
    then waiting "waiting for statefulset rolling update to complete %d pods at revision %s...\n"
        (int s.updated_replicas ∷ text s.update_revision ∷ [])
    else finished "statefulset rolling update complete %d pods at revision %s...\n"
        (int s.current_replicas ∷ text s.current_revision ∷ [])

unfoldable pub stateful_set_status : Result StatefulSet → ℤ → View
unfolding not_converted rolling_view
stateful_set_status (err e) wanted = not_converted e
stateful_set_status (panic why) wanted = not_converted (errorf why [])
stateful_set_status (ok s) wanted =
    if not (s.update_strategy == rolling_update_strategy)
    then refused true (
        errorf "rollout status is only available for %s strategy type"
          (text rolling_update_strategy ∷ []))
    else if eqb_ℤ s.observed_generation (ℤ.pos 0) || ltb_ℤ s.observed_generation s.generation
    then waiting "Waiting for statefulset spec update to be observed...\n" []
    else if less_than s.ready_replicas s.spec_replicas
    then waiting "Waiting for %d pods to be ready...\n"
        (int (or_zero s.spec_replicas -ℤ s.ready_replicas) ∷ [])
    else rolling_view s s.rolling_update
