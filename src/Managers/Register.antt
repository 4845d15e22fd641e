-- ===== src/Managers/Register.antt =====
-- managers/register.go: the registration of a bundle, and the check of its dependencies.
pub mod Laws
use kube_bundler.Prelude.{
  String, Bool, true, false, not, ◌&&◌, Option, none, some, List, [], ◌∷◌, map, ◌==◌, if◌then◌else◌,
}
use kube_bundler.Go.Errors.{Error, errorf, text}
use kube_bundler.Go.Io.{Result, ok, err, panic, Io, pure, annotate, lift, ◌>>=◌, ◌>>◌}
use kube_bundler.Api.{Application, RequiresList}
use kube_bundler.Cluster.Clients.{Objects}
use kube_bundler.Managers.Resource
use kube_bundler.Managers.Util.{string_slice_contains}
use kube_bundler.Managers.Source.{
  BundleFile, deferred, BundleRef, Source, Files, application, filename,
}

-- The loop over the requirements of an application, before the loop over the rest.
unfoldable pub check_requirements :
    List String
    → List String
    → Application
    → List RequiresList
    → Result (Unit {0})
    → Result (Unit {0})
unfolding string_slice_contains
check_requirements installed planned app [] rest = rest
check_requirements installed planned app (r ∷ more) rest =
    let further = check_requirements installed planned app more rest in
    if not (string_slice_contains installed r.name) && not (string_slice_contains planned r.name)
    then err
        (errorf "required dependency %q for app %q not found" (text r.name ∷ text app.name ∷ []))
    else if r.name == app.spec.name
    then err (errorf "bundle %q cannot require itself" (text r.name ∷ []))
    else further

unfoldable pub check_apps : List String → List String → List Application → Result (Unit {0})
unfolding check_requirements
check_apps installed planned [] = ok tt
check_apps installed planned (app ∷ apps) =
    check_requirements installed planned app app.spec.requires (check_apps installed planned apps)

abbrev pub app_names : List Application → List String
app_names apps = map (λ (a : Application). a.spec.name) apps

module _ {W : Type 0} (applications : Objects W Application) (files : Files W) where
  unfoldable pub validate_dependencies : String → List Application → Io W (Unit {0})
  unfolding check_apps
  validate_dependencies namespace apps = do
    installed ←
        annotate "couldn't list applications" []
          (Resource.list applications (λ a. a.name) (λ a. a.namespace) namespace)
    lift (check_apps (app_names installed) (app_names apps) apps)

  -- An application that is registered already is returned as it is in the cluster.
  unfoldable pub register_app : Application → Io W Application
  register_app app =
      annotate "couldn't create application definition" []
        (Resource.create_if_not_exists applications (λ a. a.name) (λ a. a.namespace) app)

  -- What follows the opening of the bundle.
  register_bundle : BundleFile → String → Io W Application
  unfolding validate_dependencies register_app
  register_bundle bundle namespace = do
    app ← application files bundle namespace
    annotate "couldn't satisfy dependencies" [] (validate_dependencies namespace (app ∷ []))
    register_app app

  unfoldable pub register : Source W → BundleRef → String → Io W Application
  unfolding register_bundle
  register source ref namespace = do
    bundle ←
        annotate "couldn't find bundle file with name '%s'" (text (filename ref) ∷ [])
          (source.get ref)
    deferred (files.close bundle.contents) (register_bundle bundle namespace)
