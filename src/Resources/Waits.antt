-- ===== src/Resources/Waits.antt =====
-- What the `Wait` of each resource has seen when it returns no error.
use kube_bundler.Prelude.{ℕ, ◌≡◌, ◌<◌, ◌-◌, some, String, arith, inl, inr}
use kube_bundler.Prelude.Int.{ℤ}
use kube_bundler.Go.Errors.{Error}
use kube_bundler.Go.Io.{Result, ok, Result-cases}
use kube_bundler.Cluster.Objects.{Deployment, StatefulSet, DaemonSet}
use kube_bundler.Cluster.Clients.{Clientset, Workloads}
use kube_bundler.Rollout.Viewers.{View}
use kube_bundler.Rollout.Done.{
  IsDone, DeploymentRolledOut, StatefulSetRolledOut, DaemonSetRolledOut, deployment-IsDone_iff,
  stateful_set-IsDone_iff, daemon_set-IsDone_iff,
}
use kube_bundler.Resources.Handle.{Handle}
use kube_bundler.Resources.Workload.{Converter, judge, judge_converted, judge_read, rollout_round}
use kube_bundler.Resources.Poll.{Round, done}
use kube_bundler.Resources.Poll.Laws.{Rounds, wait-Ended}
use kube_bundler.Resources.Poll
use kube_bundler.Resources.Deployment
use kube_bundler.Resources.StatefulSet
use kube_bundler.Resources.DaemonSet

judge-done : (status_error : String) (v : View) → judge status_error v ≡ done → IsDone v
unfolding judge
judge-done status_error v h = ground arith

-- The converter gives back what it was given.
abbrev pub RoundTrip : {U A : Type 0} → Converter U A → Type 0
RoundTrip {U} {A} c = (a : A) (u : U) → c.to_unstructured a ≡ ok u → c.from_unstructured u ≡ ok a

module _ {W U A : Type 0} (client : Workloads W A) (c : Converter U A) (status : Result A → View)
    (h : Handle) (convert_error status_error : String) (lossless : RoundTrip c) where
  judge_converted-done :
      (a : A)
      → judge_converted client c status h convert_error status_error (c.to_unstructured a) ≡ done
      → IsDone (status (ok a))
  unfolding judge_converted
  judge_converted-done a e = elim (Result-cases (c.to_unstructured a)) [
    | inl (u, p) ↦
        let q = lossless a u p in
        let e' = (rw p at e) in judge-done status_error (status (ok a)) (rw q at e')
    | inr (inl (x, p)) ↦ ground (arith, rw p at e)
    | inr (inr (why, p)) ↦ ground (arith, rw p at e)
  ]

  -- The object that the API gave is done.
  abbrev DoneAt : W → Type 0
  DoneAt w = (a : A) × ((client.get h.namespace h.name w).0 ≡ ok a) × IsDone (status (ok a))

  rollout_round-done :
      (get_error : Error → Error) (w : W)
      → (rollout_round client c status h convert_error status_error get_error w).0 ≡ done
      → DoneAt w
  unfolding rollout_round judge_read
  rollout_round-done get_error w e = elim (Result-cases (client.get h.namespace h.name w).0) [
    | inl (a, p) ↦ (a, p, judge_converted-done a (rw p at e))
    | inr (inl (x, p)) ↦ ground (arith, rw p at e)
    | inr (inr (why, p)) ↦ ground (arith, rw p at e)
  ]

-- Where a wait ended: a round began before the timeout, after rounds that found no end, and its
-- read gave an object with the property. The wait ended with that round.
pub record Saw {W A : Type 0} (k : Clientset W) (body : W → Round × W) (expired : Error)
    (timeout : ℕ) (read : W → Result A) (P : A → Type 0) (w w' : W) : Type 0 where
  pub last : W
  pub rounds : Rounds k.clock body expired (k.clock.now w).0 timeout (k.clock.now w).1 last
  pub in_time : (k.clock.now last).0 - (k.clock.now w).0 < timeout
  pub object : A
  pub was_read : read (k.clock.now last).1 ≡ ok object
  pub holds : P object
  pub ends : (body (k.clock.now last).1).1 ≡ w'

module _ {W A : Type 0} (k : Clientset W) (body : W → Round × W) (expired : Error)
    (read : W → Result A) (P : A → Type 0)
    (seen : (w : W) → (body w).0 ≡ done → (a : A) × (read w ≡ ok a) × P a) where
  pub wait-Saw :
      (fuel timeout : ℕ) (w w' : W)
      → Poll.wait k.clock body expired fuel timeout w ≡ some (ok tt, w')
      → Saw k body expired timeout read P w w'
  wait-Saw fuel timeout w w' e =
      let E = wait-Ended k.clock body expired fuel timeout w w' e in
      let (a, p, q) = seen (k.clock.now E.last).1 E.found in
      record {
        last = E.last;
        rounds = E.rounds;
        in_time = E.in_time;
        object = a;
        was_read = p;
        holds = q;
        ends = E.ends;
      }

module _ {W U : Type 0} (k : Clientset W) (h : Handle) (fuel timeout : ℕ) (w w' : W) where
  -- If objects survive their conversion, and `Wait` of a deployment returns no error, then in a
  -- round that began within the timeout the API gave a deployment that was rolled out, and the
  -- earlier reads gave none that ended the wait.
  pub deployment_wait-RolledOut :
      (c : Converter U Deployment)
      → RoundTrip c
      → Deployment.wait k c h fuel timeout w ≡ some (ok tt, w')
      → Saw k
          (Deployment.round k c h)
          (Deployment.expired k c h)
          timeout
          (λ u. (k.deployments.get h.namespace h.name u).0)
          DeploymentRolledOut
          w
          w'
  unfolding Deployment.wait Deployment.round
  deployment_wait-RolledOut c lossless e =
      wait-Saw k (Deployment.round k c h) _ _ _
        (λ u r.
          let (d, p, q) = rollout_round-done k.deployments c _ h _ _ lossless _ u r in
          (d, p, (deployment-IsDone_iff d).0 q))
        fuel timeout w w' e

  -- If objects survive their conversion, and `Wait` of a stateful set returns no error, then in a
  -- round that began within the timeout the API gave a stateful set that was rolled out, and the
  -- earlier reads gave none that ended the wait.
  pub stateful_set_wait-RolledOut :
      (c : Converter U StatefulSet)
      → RoundTrip c
      → StatefulSet.wait k c h fuel timeout w ≡ some (ok tt, w')
      → Saw k
          (StatefulSet.round k c h)
          (StatefulSet.expired k c h)
          timeout
          (λ u. (k.stateful_sets.get h.namespace h.name u).0)
          StatefulSetRolledOut
          w
          w'
  unfolding StatefulSet.wait StatefulSet.round
  stateful_set_wait-RolledOut c lossless e =
      wait-Saw k (StatefulSet.round k c h) _ _ _
        (λ u r.
          let (d, p, q) = rollout_round-done k.stateful_sets c _ h _ _ lossless _ u r in
          (d, p, (stateful_set-IsDone_iff d (ℤ.pos 0)).0 q))
        fuel timeout w w' e

  -- If objects survive their conversion, and `Wait` of a daemon set returns no error, then in a
  -- round that began within the timeout the API gave a daemon set that was rolled out, and the
  -- earlier reads gave none that ended the wait.
  pub daemon_set_wait-RolledOut :
      (c : Converter U DaemonSet)
      → RoundTrip c
      → DaemonSet.wait k c h fuel timeout w ≡ some (ok tt, w')
      → Saw k
          (DaemonSet.round k c h)
          (DaemonSet.expired k c h)
          timeout
          (λ u. (k.daemon_sets.get h.namespace h.name u).0)
          DaemonSetRolledOut
          w
          w'
  unfolding DaemonSet.wait DaemonSet.round
  daemon_set_wait-RolledOut c lossless e =
      wait-Saw k (DaemonSet.round k c h) _ _ _
        (λ u r.
          let (d, p, q) = rollout_round-done k.daemon_sets c _ h _ _ lossless _ u r in
          (d, p, (daemon_set-IsDone_iff d (ℤ.pos 0)).0 q))
        fuel timeout w w' e
