-- ===== src/Managers/RegisterAll.antt =====
-- managers/register.go: the registration of several bundles, in the order of their dependencies.
pub mod Laws
use kube_bundler.Prelude.{String, Option, none, some, List, [], ◌∷◌, ◌++◌, map}
use kube_bundler.Prelude.Dict.{Dict, insert, lookup}
use kube_bundler.Go.Errors.{errorf, text}
use kube_bundler.Go.Io.{Result, ok, panic, Io, pure, fail, crash, annotate, lift, ◌>>=◌, ◌>>◌}
use kube_bundler.Api.{Application, ProvidesList, RequiresList}
use kube_bundler.Cluster.Clients.{Objects}
use kube_bundler.Managers.Register.{validate_dependencies, register_app}
use kube_bundler.Managers.Solver.{Entry}
use kube_bundler.Managers.Source.{BundleRef, BundleFile, Source, Files, application, filename}

-- The variables `bundleFileMap`, `appMap`, `apps` and `entries`.
pub record Bundles : Type 0 where
  pub files : Dict BundleFile
  pub app_map : Dict Application
  pub apps : List Application
  pub entries : List Entry

-- `app.Spec.Provides[0].Name`
unfoldable pub provided : List ProvidesList → Result String
provided [] = panic "runtime error: index out of range [0] with length 0"
provided (p ∷ _) = ok p.name

unfoldable pub entry_of : String → Application → Entry
entry_of id app = record { id = id; deps = map (λ (r : RequiresList). r.name) app.spec.requires }

unfoldable pub add_bundle : BundleFile → Application → String → Bundles → Bundles
unfolding entry_of
add_bundle bundle app id b = record {
  files = insert app.spec.name bundle b.files;
  app_map = insert app.spec.name app b.app_map;
  apps = b.apps ++ (app ∷ []);
  entries = b.entries ++ (entry_of id app ∷ []);
}

module _ {W : Type 0} (applications : Objects W Application) (files : Files W) where
  unfoldable pub read_bundles : Source W → String → List BundleRef → Bundles → Io W Bundles
  unfolding add_bundle provided
  read_bundles source namespace [] b = pure b
  read_bundles source namespace (ref ∷ refs) b = do
    bundle ←
        annotate "couldn't find bundle file with name '%s'" (text (filename ref) ∷ [])
          (source.get ref)
    app ← application files bundle namespace
    id ← lift (provided app.spec.provides)
    read_bundles source namespace refs (add_bundle bundle app id b)

  close_bundle : Option BundleFile → Io W (Unit {0})
  close_bundle none w = (panic "invalid memory address or nil pointer dereference", w)
  close_bundle (some b) w = (ok tt, files.close b.contents w)

  -- A name that is in neither map is a nil pointer. The registration overwrites the application
  -- with the one in the cluster, if it is there.
  unfoldable pub register_found : String → Option Application → Option BundleFile → Io W Application
  unfolding register_app close_bundle
  register_found name none bundle = crash "invalid memory address or nil pointer dereference"
  register_found name (some app) bundle = do
    registered ←
        annotate "couldn't register application %q" (text name ∷ [])
          (register_app applications files app)
    close_bundle bundle
    pure registered

  -- The loop over the names of the layers.
  unfoldable pub register_names : Bundles → List String → Io W (List Application)
  unfolding register_found
  register_names b [] = pure []
  register_names b (name ∷ names) = do
    app ← register_found name (lookup name b.app_map) (lookup name b.files)
    apps ← register_names b names
    pure (app ∷ apps)

  unfoldable pub register_layers : Bundles → List (List String) → Io W (List Application)
  unfolding register_names
  register_layers b [] = pure []
  register_layers b (layer ∷ layers) = do
    apps ← register_names b layer
    more ← register_layers b layers
    pure (apps ++ more)

  unfoldable pub register_solved : Bundles → Option (List (List String)) → Io W (List Application)
  unfolding register_layers
  register_solved b none = fail (errorf "can't resolve circular dependencies" [])
  register_solved b (some layers) = register_layers b layers

  unfoldable pub register_all :
      (List Entry → Option (List (List String)))
      → List BundleRef
      → Source W
      → String
      → Io W (List Application)
  unfolding read_bundles register_solved
  register_all solve refs source namespace = do
    b ←
        read_bundles source namespace refs
          (record { files = []; app_map = []; apps = []; entries = [] })
    annotate "couldn't satisfy dependencies" []
        (validate_dependencies applications files namespace b.apps)
    register_solved b (solve b.entries)
