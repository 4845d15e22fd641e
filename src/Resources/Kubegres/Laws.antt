-- ===== src/Resources/Kubegres/Laws.antt =====
-- What the `Wait` of a Postgres cluster has seen when it returns no error.
use kube_bundler.Prelude.{ℕ, ◌≡◌, refl, some, List, [], ◌∷◌, inl, inr, arith, Option-cases}
use kube_bundler.Go.Each.{Each}
use kube_bundler.Go.Io.{ok, Result-cases}
use kube_bundler.Cluster.Objects.{StatefulSet}
use kube_bundler.Cluster.Clients.{Clientset}
use kube_bundler.Rollout.Done.{StatefulSetRolledOut}
use kube_bundler.Resources.Handle.{Handle}
use kube_bundler.Resources.Workload.{Converter}
use kube_bundler.Resources.StatefulSet
use kube_bundler.Resources.Kubegres
use kube_bundler.Resources.Waits.{RoundTrip, Saw, stateful_set_wait-RolledOut}

module _ {W U : Type 0} (k : Clientset W) (c : Converter U StatefulSet) (h : Handle)
    (timeout : ℕ) where
  -- The stateful set was seen rolled out by a wait, from the first world to the second.
  abbrev pub WasSeen : Handle → W → W → Type 0
  WasSeen s =
      Saw k (StatefulSet.round k c s) (StatefulSet.expired k c s) timeout
        (λ u. (k.stateful_sets.get s.namespace s.name u).0) StatefulSetRolledOut

  wait_all-WasSeen :
      RoundTrip c
      → (fuel : ℕ) (sets : List Handle) (w w' : W)
      → Kubegres.wait_all k c h fuel timeout sets w ≡ some (ok tt, w')
      → Each WasSeen sets w w'
  unfolding Kubegres.wait_all
  wait_all-WasSeen lossless fuel [] w w' e = ground (arith, e)
  wait_all-WasSeen lossless fuel (s ∷ rest) w w' e =
      elim (Option-cases (StatefulSet.wait k c s fuel timeout w)) [
        | inl p ↦ ground (arith, rw (p, Kubegres.wait_all) at e)
        | inr (r, p) ↦
            let e' = rw (p, Kubegres.wait_all) at e in
            elim (Result-cases r.0) [
              | inr (inl (x, q)) ↦ ground (arith, rw q at e')
              | inr (inr (why, q)) ↦ ground (arith, rw q at e')
              | inl (_, q) ↦ (
                r.1,
                stateful_set_wait-RolledOut k s fuel timeout w r.1 c lossless (rw (p, q) refl),
                wait_all-WasSeen lossless fuel rest r.1 w' (rw q at e'),
              )
            ]
      ]

  -- If objects survive their conversion, and `Wait` of a Postgres cluster returns no error, then its
  -- stateful sets were listed, and each of them was seen rolled out in a
  -- round that began within the timeout of its own wait, each wait beginning where the one before it ended.
  pub kubegres_wait-WasSeen :
      RoundTrip c
      → (fuel : ℕ) (w w' : W) → Kubegres.wait k c h fuel timeout w ≡ some (ok tt, w')
      → (sets : List Handle) × ((Kubegres.its_stateful_sets k h w).0 ≡ ok sets)
        × Each WasSeen sets (Kubegres.its_stateful_sets k h w).1 w'
  unfolding Kubegres.wait Kubegres.wait_listed
  kubegres_wait-WasSeen lossless fuel w w' e =
      let w1 = (Kubegres.its_stateful_sets k h w).1 in
      elim (Result-cases (Kubegres.its_stateful_sets k h w).0) [
        | inl (sets, p) ↦ (sets, p, wait_all-WasSeen lossless fuel sets w1 w' (rw p at e))
        | inr (inl (x, p)) ↦ ground (arith, rw p at e)
        | inr (inr (why, p)) ↦ ground (arith, rw p at e)
      ]
