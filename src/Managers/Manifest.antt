-- ===== src/Managers/Manifest.antt =====
-- managers/manifest.go: the deploy, the comparison and the smoke test of a whole manifest. `solve`
-- is `dependencysolver.LayeredTopologicalSort`, with `none` for nil.
pub mod Laws
use kube_bundler.Prelude.{
  ℕ, String, Bool, true, false, Option, none, some, List, [], ◌∷◌, if◌then◌else◌,
}
use kube_bundler.Prelude.Dict.{Dict, lookup}
use kube_bundler.Go.Errors.{errorf, text}
use kube_bundler.Go.Io.{Io}
use kube_bundler.Go.Io
use kube_bundler.Go.Run.{Run, once, annotate, ◌>>=◌, ◌>>◌}
use kube_bundler.Api.{Install, Manifest, BundleSpec}
use kube_bundler.Managers.Client.{KbClient, Libraries}
use kube_bundler.Managers.Config.{InstallReference}
use kube_bundler.Managers.Deploy.{deploy, smoketest, deploy_smoketest}
use kube_bundler.Managers.DeployJob.{action_apply_outputs, action_diff}
use kube_bundler.Managers.ManifestPlan.{Plan, make_plan}
use kube_bundler.Managers.Solver.{Entry}
use kube_bundler.Managers.Resource

pub record ManifestReference : Type 0 where
  pub name : String
  pub namespace : String

module _ {W Key U : Type 0} (c : KbClient W Key U) (l : Libraries W U) (fuel : ℕ) where
  unfoldable pub get_manifest : ManifestReference → Io W Manifest
  get_manifest ref =
      Io.annotate "couldn't get manifest %q" (text ref.name ∷ [])
        (Resource.get c.manifests (λ m. m.name) (λ m. m.namespace) ref.name ref.namespace)

  module _ (show_logs : Bool) (timeout : ℕ) (with_smoketest : Bool) where
    unfoldable pub deploy_install : Install → Run W (Unit {0})
    deploy_install install =
        let ref : InstallReference = record {
          name = install.name;
          namespace = install.namespace;
        } in
        annotate "couldn't deploy '%s'" (text install.name ∷ []) (
          if with_smoketest
          then deploy_smoketest c l fuel ref show_logs timeout
          else deploy c l fuel ref (record { action = action_apply_outputs; timeout = timeout })
              show_logs)

    -- A name without an install is a nil pointer.
    unfoldable pub deploy_found : Option Install → Run W (Unit {0})
    unfolding deploy_install
    deploy_found none = once (Io.crash "invalid memory address or nil pointer dereference")
    deploy_found (some install) = deploy_install install

    unfoldable pub deploy_named : Dict Install → String → Run W (Unit {0})
    unfolding deploy_found
    deploy_named install_map name = deploy_found (lookup name install_map)

    unfoldable pub deploy_layer : Dict Install → List String → Run W (Unit {0})
    unfolding deploy_named
    deploy_layer install_map [] = once (Io.pure tt)
    deploy_layer install_map (name ∷ names) =
        deploy_named install_map name >> deploy_layer install_map names

    unfoldable pub deploy_layers : Dict Install → List (List String) → Run W (Unit {0})
    unfolding deploy_layer
    deploy_layers install_map [] = once (Io.pure tt)
    deploy_layers install_map (layer ∷ layers) =
        deploy_layer install_map layer >> deploy_layers install_map layers

    module _ (solve : List Entry → Option (List (List String)))
        (ranged : List String → Io W (List String)) where
      unfoldable pub deploy_solved : Dict Install → Option (List (List String)) → Run W (Unit {0})
      unfolding deploy_layers
      deploy_solved install_map none = once (
          Io.fail
            (errorf "can't resolve dependencies; may be circular or have missing relationships" []))
      deploy_solved install_map (some layers) = deploy_layers install_map layers

      -- `(*ManifestManager).deploy`
      unfoldable pub deploy_manifest : ManifestReference → Run W (Unit {0})
      unfolding get_manifest deploy_solved
      deploy_manifest ref = do
        manifest ← once (get_manifest ref)
        plan ← once (make_plan c ranged ref.namespace manifest.spec.bundles)
        deploy_solved plan.install_map (solve plan.entries)

  -- The loop of `Diff`.
  unfoldable pub diff_bundles : String → ℕ → List BundleSpec → Run W (Unit {0})
  diff_bundles namespace timeout [] = once (Io.pure tt)
  diff_bundles namespace timeout (b ∷ bs) =
      annotate "couldn't diff '%s'" (text b.name ∷ []) (
        deploy c l fuel (record { name = b.name; namespace = namespace })
          (record { action = action_diff; timeout = timeout }) true)
      >> diff_bundles namespace timeout bs

  unfoldable pub diff : ManifestReference → ℕ → Run W (Unit {0})
  unfolding get_manifest diff_bundles
  diff ref timeout = do
    manifest ← once (get_manifest ref)
    diff_bundles ref.namespace timeout manifest.spec.bundles

  -- The loop of `Smoketest`.
  unfoldable pub smoketest_bundles : String → Bool → ℕ → List BundleSpec → Run W (Unit {0})
  smoketest_bundles namespace show_logs timeout [] = once (Io.pure tt)
  smoketest_bundles namespace show_logs timeout (b ∷ bs) =
      annotate "couldn't deploy '%s'" (text b.name ∷ [])
        (smoketest c l fuel (record { name = b.name; namespace = namespace }) show_logs timeout)
      >> smoketest_bundles namespace show_logs timeout bs

  unfoldable pub smoketest_manifest : ManifestReference → Bool → ℕ → Run W (Unit {0})
  unfolding get_manifest smoketest_bundles
  smoketest_manifest ref show_logs timeout = do
    manifest ← once (get_manifest ref)
    smoketest_bundles ref.namespace show_logs timeout manifest.spec.bundles
