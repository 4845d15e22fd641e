-- ===== src/Managers/ManifestInstall.antt =====
-- managers/manifest.go: the install of a whole manifest.
use kube_bundler.Prelude.{String, Bool, Option, none, some, List, [], ◌∷◌, map, ◌==◌, if◌then◌else◌}
use kube_bundler.Prelude.Dict.{Dict, lookup, lookup_or, insert}
use kube_bundler.Go.Errors.{text}
use kube_bundler.Go.Io.{Io, pure, annotate, lift, attempt, ◌>>=◌, ◌>>◌}
use kube_bundler.Api.{
  Application, Install, ManifestSpec, BundleSpec, SourceInfo, RequiresList, ParameterSpec,
}
use kube_bundler.Api.Registry.{cluster_url}
use kube_bundler.Parameter.Manager.{merge_additional_parameters}
use kube_bundler.Managers.Client.{KbClient, Libraries}
use kube_bundler.Managers.Directory.{Writer}
use kube_bundler.Managers.Install.{install, unless_forced}
use kube_bundler.Managers.Manifest.{ManifestReference, get_manifest}
use kube_bundler.Managers.RegisterAll.{register_all}
use kube_bundler.Managers.Resource
use kube_bundler.Managers.S3.{Aws, new_source}
use kube_bundler.Managers.Solver.{Entry}
use kube_bundler.Managers.Source.{BundleRef, Source, Files, multi_get, multi_put}
use kube_bundler.Managers.Util.{get_resource_name, verify_resource_requirements}

-- `parameters[bundle.Name] = bundle.Parameters`
unfoldable pub bundle_parameters :
    List BundleSpec → Dict (List ParameterSpec) → Dict (List ParameterSpec)
bundle_parameters [] m = m
bundle_parameters (b ∷ bs) m = bundle_parameters bs (insert b.name b.parameters m)

unfoldable pub require_parameters :
    List RequiresList → Dict (List ParameterSpec) → Dict (List ParameterSpec)
unfolding get_resource_name
require_parameters [] m = m
require_parameters (r ∷ rs) m = require_parameters rs (add r.parameters)
  where
    add : List ParameterSpec → Dict (List ParameterSpec)
    add [] = m
    add (p ∷ ps) = insert (get_resource_name r.name r.suffix) (p ∷ ps) m

unfoldable pub additional_parameters :
    List BundleSpec → Dict (List ParameterSpec) → Dict (List ParameterSpec)
unfolding require_parameters
additional_parameters [] m = m
additional_parameters (b ∷ bs) m = additional_parameters bs (require_parameters b.requires m)

unfoldable pub bundle_refs : List BundleSpec → List BundleRef
bundle_refs [] = []
bundle_refs (b ∷ bs) = record { name = b.name; version = b.version } ∷ bundle_refs bs

-- The map from what is required to what requires it, and with which suffix.
abbrev pub Suffixes : Type 0
Suffixes = Dict (Dict String)

unfoldable pub require_suffixes : String → List RequiresList → Suffixes → Suffixes
require_suffixes app [] m = m
require_suffixes app (r ∷ rs) m =
    require_suffixes app rs (insert r.name (insert app r.suffix (lookup_or [] r.name m)) m)

unfoldable pub app_suffixes : List Application → Suffixes → Suffixes
unfolding require_suffixes
app_suffixes [] m = m
app_suffixes (a ∷ apps) m = app_suffixes apps (require_suffixes a.spec.name a.spec.requires m)

-- The parameters of an install with a suffix: the additional ones are merged in, if there are any.
unfoldable pub suffix_parameters :
    Application → List ParameterSpec → List ParameterSpec → List ParameterSpec
unfolding merge_additional_parameters
suffix_parameters app own [] = own
suffix_parameters app own (p ∷ ps) =
    merge_additional_parameters
      (record {
        install_name = app.spec.name;
        definitions = app.spec.parameter_definitions;
        parameters = own;
      })
      (p ∷ ps)

-- `ranged` gives the values of a map in the order in which a loop meets them.
module _ {W Key U : Type 0} (c : KbClient W Key U) (l : Libraries W U)
    (ranged : List String → Io W (List String)) where
  module _ (spec : ManifestSpec) (namespace registry : String) (force : Bool) where
    unfoldable pub install_app : Application → String → List ParameterSpec → Io W Install
    unfolding install
    install_app app suffix parameters =
        annotate "couldn't install application %s" (text app.spec.name ∷ []) (
          install c l (record {
            app_name = app.spec.name;
            name = app.spec.name;
            namespace = namespace;
            version = app.spec.version;
            suffix = suffix;
            flavor = spec.flavor;
            docker_registry = registry;
            force = force;
            parameters = parameters;
          }))

    module _ (parameters additional : Dict (List ParameterSpec)) where
      unfoldable pub install_suffixes : Application → List String → Io W (Unit {0})
      unfolding install_app suffix_parameters get_resource_name
      install_suffixes app [] = pure tt
      install_suffixes app (suffix ∷ rest) = do
        i ← install_app app suffix (
            suffix_parameters app (lookup_or [] app.spec.name parameters)
              (lookup_or [] (get_resource_name app.spec.name suffix) additional))
        install_suffixes app rest

      -- Once per suffix, or once with none where nothing requires the application.
      unfoldable pub install_needed : Application → Option (Dict String) → Io W (Unit {0})
      unfolding install_suffixes
      install_needed app (some needs) = do
        suffixes ← ranged (map (λ (p : String × String). p.1) needs)
        install_suffixes app suffixes
      install_needed app none = do
        i ← install_app app "" (lookup_or [] app.spec.name parameters)
        pure tt

      unfoldable pub install_apps : Suffixes → List Application → Io W (Unit {0})
      unfolding install_needed
      install_apps suffixes [] = pure tt
      install_apps suffixes (a ∷ apps) = do
        install_needed a (lookup a.spec.name suffixes)
        install_apps suffixes apps

  module _ (files : Files W) (writer : Writer W) (aws : Aws W)
      (solve : List Entry → Option (List (List String))) where
    unfoldable pub find_sources : String → List SourceInfo → Io W (List (Source W))
    unfolding new_source
    find_sources namespace [] = pure []
    find_sources namespace (i ∷ is) = do
      src ←
          annotate "couldn't get source '%s'" (text i.name ∷ [])
            (Resource.get c.sources (λ s. s.name) (λ s. s.namespace) i.name namespace)
      source ←
          annotate "couldn't create new source" []
            (lift (new_source files writer aws src.spec i.section i.release))
      rest ← find_sources namespace is
      pure (source ∷ rest)

    -- The URL of the registry, or "" if the manifest names none.
    unfoldable pub find_registry : String → String → Io W String
    unfolding cluster_url
    find_registry namespace name = if name == "" then pure "" else url
      where
        url : Io W String
        url = do
          r ←
              annotate "couldn't get registry '%s'" (text name ∷ [])
                (Resource.get c.registries (λ r. r.name) (λ r. r.namespace) name namespace)
          pure (cluster_url r)

    multi_source : List (Source W) → Source W
    unfolding multi_get multi_put
    multi_source sources = record { get = multi_get sources; put = multi_put sources }

    unfoldable pub check_resources : ManifestSpec → Bool → Io W (Unit {0})
    unfolding verify_resource_requirements unless_forced
    check_resources spec force = do
      r ← attempt (verify_resource_requirements l.parse_quantity c.nodes spec)
      unless_forced force "Insufficient resources for install" r

    unfoldable pub install_manifest : ManifestReference → Bool → Io W (Unit {0})
    unfolding get_manifest check_resources find_sources register_all find_registry install_apps
        bundle_parameters additional_parameters bundle_refs app_suffixes multi_source
    install_manifest ref force = do
      manifest ← get_manifest c l 0 ref
      check_resources manifest.spec force
      sources ← find_sources ref.namespace manifest.spec.sources
      apps ← annotate "couldn't register bundles" [] (
          register_all c.applications files solve (bundle_refs manifest.spec.bundles)
            (multi_source sources) ref.namespace)
      registry ← find_registry ref.namespace manifest.spec.registry
      install_apps manifest.spec ref.namespace registry force
          (bundle_parameters manifest.spec.bundles [])
          (additional_parameters manifest.spec.bundles []) (app_suffixes apps []) apps
