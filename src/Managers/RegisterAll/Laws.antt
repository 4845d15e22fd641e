-- ===== src/Managers/RegisterAll/Laws.antt =====
-- The order in which bundles are registered.
use kube_bundler.Prelude.{◌∙◌}
use kube_bundler.Prelude.{
  ◌≡◌, refl, ap, String, Option, none, some, List, [], ◌∷◌, All, Memᴰ, flatten, arith, Option-cases,
  inl, inr,
}
use kube_bundler.Prelude.Dict.{lookup}
use kube_bundler.Go.Errors.{text}
use kube_bundler.Go.Io.{Result, ok, annotate, annotate-ok, bind-ok}
use kube_bundler.Api.{Application}
use kube_bundler.Cluster.Clients.{Objects}
use kube_bundler.Managers.Register.{validate_dependencies, register_app}
use kube_bundler.Managers.Solver.{Entry, Sound}
use kube_bundler.Managers.Solver.Order.{
  InOrder, Sequence, at_end, then_more, Layers, no_more, then_layer, Layers-InOrder,
}
use kube_bundler.Managers.Source.{BundleRef, BundleFile, Source, Files}
use kube_bundler.Managers.RegisterAll.{
  Bundles, read_bundles, close_bundle, register_found, register_names, register_layers,
  register_solved, register_all,
}

module _ {W : Type 0} (applications : Objects W Application) (files : Files W) where
  -- The application of the name was registered with no error, and its bundle was closed.
  pub record Registered (b : Bundles) (name : String) (w w' : W) : Type 0 where
    pub app : Application
    pub bundle : BundleFile
    pub registered : Application
    pub is_app : lookup name b.app_map ≡ some app
    pub is_bundle : lookup name b.files ≡ some bundle
    pub after : W
    pub is_registered : register_app applications files app w ≡ (ok registered, after)
    pub is_closed : files.close bundle.contents after ≡ w'

  register_found-Registered :
      (b : Bundles) (name : String) (a : Option Application) (f : Option BundleFile)
      (x : Application) (w w' : W)
      → lookup name b.app_map ≡ a
      → lookup name b.files ≡ f
      → register_found applications files name a f w ≡ (ok x, w')
      → Registered b name w w'
  unfolding register_found close_bundle
  register_found-Registered b name none f x w w' p q h = ground (arith, h)
  register_found-Registered b name (some app) none x w w' p q h =
      let one =
        annotate "couldn't register application %q" (text name ∷ [])
          (register_app applications files app) in
      let (r, u, h1, r1) = bind-ok one _ w w' x h in ground (arith, r1)
  register_found-Registered b name (some app) (some f) x w w' p q h =
      let one =
        annotate "couldn't register application %q" (text name ∷ [])
          (register_app applications files app) in
      let (r, u, h1, r1) = bind-ok one _ w w' x h in
      record {
        app = app;
        bundle = f;
        registered = r;
        is_app = p;
        is_bundle = q;
        after = u;
        is_registered = annotate-ok _ _ (register_app applications files app) w u r h1;
        is_closed = ap (λ (y : Result Application × W). y.1) r1;
      }

  register_names-Sequence :
      (b : Bundles) (names : List String) (xs : List Application) (w w' : W)
      → register_names applications files b names w ≡ (ok xs, w')
      → Sequence (Registered b) names w w'
  unfolding register_names
  register_names-Sequence b [] xs w w' h = at_end w w' (ground (arith, h))
  register_names-Sequence b (name ∷ names) xs w w' h =
      let one =
        register_found applications files name (lookup name b.app_map) (lookup name b.files) in
      let (x, u, h1, r1) = bind-ok one _ w w' xs h in
      let (ys, v, h2, r2) = bind-ok (register_names applications files b names) _ u w' xs r1 in
      let same : v ≡ w' = ap (λ (y : Result (List Application) × W). y.1) r2 in
      then_more name names w u w'
        (register_found-Registered b name (lookup name b.app_map) (lookup name b.files) x w u refl
          refl h1)
        (register_names-Sequence b names ys u w' (h2 ∙ ap (λ y. (ok ys, y)) same))

  register_layers-Layers :
      (b : Bundles) (layers : List (List String)) (xs : List Application) (w w' : W)
      → register_layers applications files b layers w ≡ (ok xs, w')
      → Layers (Registered b) layers w w'
  unfolding register_layers
  register_layers-Layers b [] xs w w' h = no_more w w' (ground (arith, h))
  register_layers-Layers b (layer ∷ layers) xs w w' h =
      let (ys, u, h1, r1) = bind-ok (register_names applications files b layer) _ w w' xs h in
      let (zs, v, h2, r2) = bind-ok (register_layers applications files b layers) _ u w' xs r1 in
      let same : v ≡ w' = ap (λ (y : Result (List Application) × W). y.1) r2 in
      then_layer layer layers w u w' (register_names-Sequence b layer ys w u h1)
        (register_layers-Layers b layers zs u w' (h2 ∙ ap (λ y. (ok zs, y)) same))

  abbrev no_bundles : Bundles
  no_bundles = record { files = []; app_map = []; apps = []; entries = [] }

  -- The bundles were read, their dependencies checked, and all of them registered.
  pub record AllRegistered (refs : List BundleRef) (source : Source W) (namespace : String)
      (w w' : W) : Type 0 where
    pub bundles : Bundles
    pub read : W
    pub is_read :
        read_bundles applications files source namespace refs no_bundles w ≡ (ok bundles, read)
    pub checked : W
    pub is_checked :
        validate_dependencies applications files namespace bundles.apps read ≡ (ok tt, checked)
    pub names : List String
    pub all_names : All (λ (e : Entry). Memᴰ e.id names) bundles.entries
    pub in_order : InOrder (Registered bundles) bundles.entries [] names checked w'

  module _ (solve : List Entry → Option (List (List String))) (sound : Sound solve) where
    -- If the solver gives layers that depend on earlier layers alone and hold every entry, and the registration of several
    -- bundles returns no error, then the bundles were read, the check of their dependencies succeeded,
    -- and the application of every entry was registered with no error and its bundle closed, one after another, and
    -- each after everything that it depends on.
    pub register_all-AllRegistered :
        (refs : List BundleRef) (source : Source W) (namespace : String) (xs : List Application)
        (w w' : W)
        → register_all applications files solve refs source namespace w ≡ (ok xs, w')
        → AllRegistered refs source namespace w w'
    unfolding register_all register_solved
    register_all-AllRegistered refs source namespace xs w w' h =
        let (b, w1, h1, r1) =
          bind-ok (read_bundles applications files source namespace refs no_bundles) _ w w' xs h in
        let check =
          annotate "couldn't satisfy dependencies" []
            (validate_dependencies applications files namespace b.apps) in
        let (_, w2, h2, r2) = bind-ok check _ w1 w' xs r1 in
        elim (Option-cases (solve b.entries)) [
          | inl p ↦ ground (arith, rw (p, register_solved) at r2)
          | inr (layers, p) ↦ record {
            bundles = b;
            read = w1;
            is_read = h1;
            checked = w2;
            is_checked =
                annotate-ok _ _ (validate_dependencies applications files namespace b.apps) w1 w2 tt
                  h2;
            names = flatten layers;
            all_names = sound.complete b.entries layers p;
            in_order =
                Layers-InOrder (Registered b) b.entries layers [] [] w2 w' (λ x m. m)
                  (sound.layered b.entries layers p)
                  (register_layers-Layers b layers xs w2 w' (rw (p, register_solved) at r2));
          }
        ]
