-- ===== src/Managers/Manifest/Laws.antt =====
-- The order in which a manifest is deployed.
use kube_bundler.Prelude.{
  ℕ, ◌≡◌, String, Bool, true, false, some, Option, List, [], ◌∷◌, All, Memᴰ, flatten, arith,
  Option-cases, inl, inr,
}
use kube_bundler.Prelude.Dict.{Dict, lookup}
use kube_bundler.Go.Io.{Io, ok}
use kube_bundler.Go.Run.{Gives, once, annotate, annotate-ok, >>=-ok}
use kube_bundler.Go.Errors.{text}
use kube_bundler.Managers.Config.{InstallReference}
use kube_bundler.Managers.Deploy
use kube_bundler.Managers.Deploy.Laws
use kube_bundler.Managers.Deploy.Laws.{deploy-Deployed, smoketest-Deployed}
use kube_bundler.Managers.Prepare.{DeployOpts}
use kube_bundler.Managers.Rollout.Laws.{Lossless}
use kube_bundler.Api.{Install, Manifest}
use kube_bundler.Managers.Client.{KbClient, Libraries}
use kube_bundler.Managers.ManifestPlan.{Plan, make_plan}
use kube_bundler.Managers.Solver.{Entry, Sound}
use kube_bundler.Managers.Solver.Order.{
  InOrder, Sequence, at_end, then_more, Layers, no_more, then_layer, Layers-InOrder,
}
use kube_bundler.Managers.Manifest.{
  ManifestReference, get_manifest, deploy_install, deploy_found, deploy_named, deploy_layer,
  deploy_layers, deploy_solved, deploy_manifest,
}

module _ {W Key U : Type 0} (c : KbClient W Key U) (l : Libraries W U) (fuel : ℕ) (show_logs : Bool)
    (timeout : ℕ) where
  abbrev pub apply_opts : DeployOpts
  apply_opts = record { action = "apply outputs"; timeout = timeout }

  abbrev pub smoketest_opts : DeployOpts
  smoketest_opts = record { action = "smoketest"; timeout = timeout }

  -- The install was deployed, and smoke tested after it if this is asked for.
  abbrev pub Ran : Bool → InstallReference → W → W → Type 0
  Ran false ref w u = Laws.Deployed c l fuel ref apply_opts show_logs w u
  Ran true ref w u =
      (v : W) × Laws.Deployed c l fuel ref apply_opts show_logs w v
      × Laws.Deployed c l fuel ref smoketest_opts show_logs v u

  -- There is an install of that name, and it was deployed with no error.
  pub record Deployed (with_smoketest : Bool) (m : Dict Install) (name : String) (w u : W)
      : Type 0 where
    pub install : Install
    pub found : lookup name m ≡ some install
    pub ran : Ran with_smoketest (record { name = install.name; namespace = install.namespace }) w u

  deploy_install-Ran :
      Lossless c
      → (with_smoketest : Bool) (install : Install) (w u : W)
      → Gives (deploy_install c l fuel show_logs timeout with_smoketest install) w tt u
      → Ran with_smoketest (record { name = install.name; namespace = install.namespace }) w u
  unfolding deploy_install Deploy.deploy_smoketest
  deploy_install-Ran L false install w u e =
      let ref : InstallReference = record { name = install.name; namespace = install.namespace } in
      deploy-Deployed c l fuel L ref apply_opts show_logs w u
        (annotate-ok _ _ (Deploy.deploy c l fuel ref apply_opts show_logs) w u tt e)
  deploy_install-Ran L true install w u e =
      let ref : InstallReference = record { name = install.name; namespace = install.namespace } in
      let deploy = Deploy.deploy c l fuel ref apply_opts show_logs in
      let test = Deploy.smoketest c l fuel ref show_logs timeout in
      let both =
        annotate-ok _ _ (Deploy.deploy_smoketest c l fuel ref show_logs timeout) w u tt e in
      let (_, v, first, second) =
        >>=-ok (annotate "couldn't execute deploy for '%s'" (text ref.name ∷ []) deploy)
          (λ _. annotate "couldn't run smoketest for %q" (text ref.name ∷ []) test) w u tt both in
      (
        v,
        deploy-Deployed c l fuel L ref apply_opts show_logs w v
            (annotate-ok _ _ deploy w v tt first),
        (smoketest-Deployed c l fuel L ref show_logs timeout v u
            (annotate-ok _ _ test v u tt second)).0,
      )

  deploy_named-Deployed :
      Lossless c
      → (with_smoketest : Bool) (m : Dict Install) (name : String) (w u : W)
      → Gives (deploy_named c l fuel show_logs timeout with_smoketest m name) w tt u
      → Deployed with_smoketest m name w u
  unfolding deploy_named deploy_found
  deploy_named-Deployed L with_smoketest m name w u e = elim (Option-cases (lookup name m)) [
    | inl p ↦ ground (arith, rw (p, deploy_named, deploy_found) at e)
    | inr (install, p) ↦ record {
      install = install;
      found = p;
      ran =
          deploy_install-Ran L with_smoketest install w u (rw (p, deploy_named, deploy_found) at e);
    }
  ]

module _ {W Key U : Type 0} (c : KbClient W Key U) (l : Libraries W U) (fuel : ℕ) (show_logs : Bool)
    (timeout : ℕ) (with_smoketest : Bool) where
  abbrev DeployedIn : Dict Install → String → W → W → Type 0
  DeployedIn = Deployed c l fuel show_logs timeout with_smoketest

  module _ (L : Lossless c) (m : Dict Install) where
    deploy_layer-Sequence :
        (names : List String) (w w' : W)
        → Gives (deploy_layer c l fuel show_logs timeout with_smoketest m names) w tt w'
        → Sequence (DeployedIn m) names w w'
    unfolding deploy_layer
    deploy_layer-Sequence [] w w' e = at_end w w' (ground (arith, e))
    deploy_layer-Sequence (name ∷ names) w w' e =
        let (_, u, step, more) =
          >>=-ok (deploy_named c l fuel show_logs timeout with_smoketest m name) _ w w' tt e in
        then_more name names w u w'
          (deploy_named-Deployed c l fuel show_logs timeout L with_smoketest m name w u step)
          (deploy_layer-Sequence names u w' more)

    deploy_layers-Layers :
        (layers : List (List String)) (w w' : W)
        → Gives (deploy_layers c l fuel show_logs timeout with_smoketest m layers) w tt w'
        → Layers (DeployedIn m) layers w w'
    unfolding deploy_layers
    deploy_layers-Layers [] w w' e = no_more w w' (ground (arith, e))
    deploy_layers-Layers (layer ∷ layers) w w' e =
        let (_, u, step, more) =
          >>=-ok (deploy_layer c l fuel show_logs timeout with_smoketest m layer) _ w w' tt e in
        then_layer layer layers w u w' (deploy_layer-Sequence layer w u step)
          (deploy_layers-Layers layers u w' more)

  -- What was planned, and that all of it was deployed.
  pub record AllDeployed (ranged : List String → Io W (List String)) (ref : ManifestReference)
      (w w' : W) : Type 0 where
    pub manifest : Manifest
    pub got_manifest : W
    pub manifest_read : get_manifest c l fuel ref w ≡ (ok manifest, got_manifest)
    pub plan : Plan
    pub planned : W
    pub plan_made :
        make_plan c ranged ref.namespace manifest.spec.bundles got_manifest ≡ (ok plan, planned)
    pub names : List String
    pub all_names : All (λ (e : Entry). Memᴰ e.id names) plan.entries
    pub in_order : InOrder (DeployedIn plan.install_map) plan.entries [] names planned w'

  module _ (solve : List Entry → Option (List (List String)))
      (ranged : List String → Io W (List String)) (sound : Sound solve) (L : Lossless c) where
    deploy_solved-InOrder :
        (entries : List Entry) (m : Dict Install) (w w' : W)
        → Gives
            (deploy_solved c l fuel show_logs timeout with_smoketest solve ranged m (solve entries))
            w
            tt
            w'
        → (names : List String) × All (λ (e : Entry). Memᴰ e.id names) entries
          × InOrder (DeployedIn m) entries [] names w w'
    unfolding deploy_solved
    deploy_solved-InOrder entries m w w' e = elim (Option-cases (solve entries)) [
      | inl p ↦ ground (arith, rw (p, deploy_solved) at e)
      | inr (layers, p) ↦ (
        flatten layers,
        sound.complete entries layers p,
        Layers-InOrder (DeployedIn m) entries layers [] [] w w' (λ x h. h)
            (sound.layered entries layers p)
            (deploy_layers-Layers L m layers w w' (rw (p, deploy_solved) at e)),
      )
    ]

    -- If objects survive their conversion, the solver gives layers that depend on earlier layers alone and hold every entry, and the
    -- deploy of a manifest returns no error, then a plan was made for the manifest, and every
    -- entry of the plan has an install that was deployed, one after another, each
    -- after everything that it depends on. Deployed means that its job was created and read
    -- complete and its resources were waited for, and the same again for its smoke test if smoke tests are asked for.
    pub deploy_manifest-AllDeployed :
        (ref : ManifestReference) (w w' : W)
        → Gives (deploy_manifest c l fuel show_logs timeout with_smoketest solve ranged ref) w tt w'
        → AllDeployed ranged ref w w'
    unfolding deploy_manifest
    deploy_manifest-AllDeployed ref w w' e =
        let (manifest, w1, e1, rest1) = >>=-ok (once (get_manifest c l fuel ref)) _ w w' tt e in
        let (plan, w2, e2, rest2) =
          >>=-ok (once (make_plan c ranged ref.namespace manifest.spec.bundles)) _ w1 w' tt rest1 in
        let (names, all, order) = deploy_solved-InOrder plan.entries plan.install_map w2 w' rest2 in
        record {
          manifest = manifest;
          got_manifest = w1;
          manifest_read = ground (arith, e1);
          plan = plan;
          planned = w2;
          plan_made = ground (arith, e2);
          names = names;
          all_names = all;
          in_order = order;
        }
