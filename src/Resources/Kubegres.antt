-- ===== src/Resources/Kubegres.antt =====
-- resources/kubegres_resource.go: a Postgres cluster, whose pods belong to stateful sets.
pub mod Laws
use kube_bundler.Prelude.{ℕ, Bool, true, false, Option, none, some, List, [], ◌∷◌, ◌<>◌, length}
use kube_bundler.Prelude.Dict.{Dict, insert}
use kube_bundler.Prelude.Int.{ℤ, int32}
use kube_bundler.Go.Errors.{Error, text, wrapped}
use kube_bundler.Go.Io.{Result, ok, err, panic, Io, pure, fail, annotate, lift, attempt, ◌>>=◌}
use kube_bundler.Cluster.Objects.{StatefulSet}
use kube_bundler.Cluster.Clients.{Clientset, KubegresClient}
use kube_bundler.Resources.Containers.{LogOpts, LogInfo, StatusInfo}
use kube_bundler.Resources.Handle.{Handle, new_handle}
use kube_bundler.Resources.Workload.{Converter}
use kube_bundler.Resources.StatefulSet

unfoldable pub handles : Handle → List StatefulSet → List Handle
handles h [] = []
handles h (s ∷ rest) = new_handle h.category h.service_name s.name s.namespace ∷ handles h rest

-- `for k, v := range from { m[k] = v }`
unfoldable pub put_all : {A : Type 0} → Dict A → Dict A → Dict A
put_all [] m = m
put_all ((key, v) ∷ rest) m = put_all rest (insert key v m)

-- What a call leaves in the variable `err` of `Restart`.
abbrev pub outcome : Result (Unit {0}) → Option Error
outcome (ok _) = none
outcome (err e) = some e
outcome (panic _) = none

module _ {W : Type 0} (k : Clientset W) (h : Handle) where
  unfoldable pub get_stateful_sets : Io W (List Handle)
  unfolding handles
  get_stateful_sets = do
    sets ←
        annotate "couldn't list stateful sets" []
          (k.stateful_sets.list h.namespace ("app=" <> h.name))
    pure (handles h sets)

  abbrev pub get_client : Io W (KubegresClient W)
  get_client =
      annotate "couldn't get kubegres client" []
        (annotate "couldn't get kubeconfig" [] (lift k.kubegres))

  abbrev pub its_stateful_sets : Io W (List Handle)
  its_stateful_sets =
      annotate "couldn't get stateful sets in kubegres %s" (text h.name ∷ []) get_stateful_sets

  unfoldable pub fetch : Io W Handle
  unfolding get_stateful_sets
  fetch = do
    client ← get_client
    replicas ←
        annotate "couldn't get kubegres %s" (text h.name ∷ []) (client.get h.namespace h.name)
    sets ← its_stateful_sets
    pure (record h { available_replicas = ℤ.pos (length sets); total_replicas = replicas })

  -- The loop of `Restart`: whether an error occurred, and `err` of the last call.
  unfoldable pub restart_all : Bool → List Handle → Bool → Option Error → Io W (Bool × Option Error)
  restart_all force [] occurred last = pure (occurred, last)
  restart_all force (s ∷ rest) occurred last = do
    r ← attempt (StatefulSet.restart k s force)
    elim (outcome r) [
      | none ↦ restart_all force rest occurred none
      | some e ↦ restart_all force rest true (some e)
    ]

  finish_restart : Bool × Option Error → Io W (Unit {0})
  finish_restart (false, last) = pure tt
  finish_restart (true, none) = pure tt
  finish_restart (true, some e) =
      fail (wrapped "failed to restart every stateful set in kubegres %s" (text h.name ∷ []) e)

  -- `errors.Wrapf(err, …)` is nil where the last stateful set was restarted.
  unfoldable pub restart : Bool → Io W (Unit {0})
  unfolding get_stateful_sets restart_all finish_restart
  restart force = do
    sets ← its_stateful_sets
    r ← restart_all force sets false none
    finish_restart r

  unfoldable pub scale : ℤ → Io W (Unit {0})
  scale replicas = do
    client ← get_client
    old ← annotate "couldn't get kubegres %s" (text h.name ∷ []) (client.get h.namespace h.name)
    annotate "couldn't scale kubegres %s" (text h.name ∷ [])
        (client.update h.namespace h.name (int32 replicas))

  unfoldable pub delete : Io W (Unit {0})
  delete = do
    client ← get_client
    annotate "couldn't delete kubegres %s" (text h.name ∷ []) (client.delete h.namespace h.name)

  -- The loop of `Logs` or `Status`, given the call for one stateful set: what fails is logged.
  unfoldable pub gather :
      {A : Type 0} → (Handle → Io W (Dict A)) → List Handle → Dict A → Io W (Dict A)
  gather call [] m = pure m
  gather call (s ∷ rest) m = do
    r ← attempt (call s)
    elim r [
      | ok found ↦ gather call rest (put_all found m)
      | err e ↦ gather call rest m
      | panic why ↦ gather call rest m
    ]

  -- The `err` of the loop's body is another variable: `errors.Wrapf` is given the nil of the
  -- list call, and returns nil whether or not an error occurred.
  unfoldable pub logs : LogOpts → Io W (Dict LogInfo)
  unfolding get_stateful_sets
  logs opts = do sets ← its_stateful_sets; gather (λ s. StatefulSet.logs k s opts) sets []

  unfoldable pub status : Io W (Dict StatusInfo)
  unfolding get_stateful_sets
  status = do sets ← its_stateful_sets; gather (λ s. StatefulSet.status k s) sets []

abbrev pub needs_quorum : Bool
needs_quorum = false

module _ {W U : Type 0} (k : Clientset W) (c : Converter U StatefulSet) (h : Handle) where
  wait_error : Handle → Error → Error
  wait_error s =
      wrapped "failed to wait on stateful set %s in kubegres %s" (text s.name ∷ text h.name ∷ [])

  -- The stateful sets are waited for one after another, each for the whole timeout.
  unfoldable pub wait_all : ℕ → ℕ → List Handle → W → Option (Result (Unit {0}) × W)
  unfolding wait_error
  wait_all fuel timeout [] w = some (ok tt, w)
  wait_all fuel timeout (s ∷ rest) w = elim (StatefulSet.wait k c s fuel timeout w) [
    | none ↦ none
    | some (ok _, w') ↦ wait_all fuel timeout rest w'
    | some (err e, w') ↦ some (err (wait_error s e), w')
    | some (panic why, w') ↦ some (panic why, w')
  ]

  unfoldable pub wait_listed : ℕ → ℕ → Result (List Handle) × W → Option (Result (Unit {0}) × W)
  unfolding wait_all
  wait_listed fuel timeout (ok sets, w) = wait_all fuel timeout sets w
  wait_listed fuel timeout (err e, w) = some (err e, w)
  wait_listed fuel timeout (panic why, w) = some (panic why, w)

  unfoldable pub wait : ℕ → ℕ → W → Option (Result (Unit {0}) × W)
  unfolding get_stateful_sets wait_listed
  wait fuel timeout w = wait_listed fuel timeout (its_stateful_sets k h w)
