-- ===== src/Managers/Config.antt =====
-- managers/config.go: the parameters of an install, read and changed one by one.
pub mod Laws
use kube_bundler.Prelude.{
  String, ◌<>◌, Bool, Option, none, some, List, [], ◌∷◌, ◌==◌, if◌then◌else◌,
}
use kube_bundler.Prelude.Dict.{Dict, lookup, lookup_or}
use kube_bundler.Go.Errors.{errorf, text}
use kube_bundler.Go.Io.{Io, pure, fail, annotate, ◌>>=◌, ◌>>◌}
use kube_bundler.Api.{Install, Application, ParameterSpec, no_secret}
use kube_bundler.Cluster.Objects.{Secret}
use kube_bundler.Cluster.Clients.{Objects, SecretClient, Entropy}
use kube_bundler.Parameter.Secret.{get_global_secret, secret_key, stored}
use kube_bundler.Parameter.Manager.{ParameterManager, get_merged_map}
use kube_bundler.Managers.Resource

pub record InstallReference : Type 0 where
  pub name : String
  pub namespace : String

-- The loop of `Set` over the parameters, with what follows it when nothing was found: the first
-- parameter of the name gets the value, or a new one is appended.
unfoldable pub override : String → String → List ParameterSpec → List ParameterSpec
override key value [] = record { name = key; value = value; generate_secret = no_secret } ∷ []
override key value (p ∷ ps) =
    let rest = override key value ps in
    if p.name == key then record p { value = value } ∷ ps else p ∷ rest

-- The loop of `Remove`: a parameter of the name goes back to its generated secret, if it has one.
unfoldable pub reset : Secret → String → String → List ParameterSpec → List ParameterSpec
reset secret install_name key [] = []
reset secret install_name key (p ∷ ps) =
    let rest = reset secret install_name key ps in
    if p.name == key
    then elim (stored secret (secret_key install_name p.name)) [
      | some v ↦ record p { value = v } ∷ rest
      | none ↦ rest
    ]
    else p ∷ rest

abbrev pub with_parameters : Install → List ParameterSpec → Install
with_parameters install ps = record install { spec = record install.spec { parameters = ps } }

module _ {W Key : Type 0} (installs : Objects W Install) (applications : Objects W Application)
    (secrets : SecretClient W) (entropy : Entropy W Key) where
  abbrev app_name : Install → String
  app_name install = install.spec.application <> ("-" <> install.spec.version)

  abbrev get_install : String → InstallReference → Io W Install
  get_install format ref =
      annotate format (text ref.name ∷ [])
        (Resource.get installs (λ i. i.name) (λ i. i.namespace) ref.name ref.namespace)

  unfoldable pub list : InstallReference → Io W (Dict String)
  list ref = do
    install ← get_install "couldn't get install %q" ref
    app ← annotate "couldn't get application %q" (text (app_name install) ∷ []) (
        Resource.get applications (λ a. a.name) (λ a. a.namespace) (app_name install) ref.namespace)
    annotate "couldn't get merged map" [] (
        get_merged_map secrets entropy (record {
          install_name = ref.name;
          definitions = app.spec.parameter_definitions;
          parameters = install.spec.parameters;
        }))

  -- The rejection of unknown keys, with which `Get` and `Set` begin.
  unfoldable pub check_known : InstallReference → String → Dict String → Io W (Unit {0})
  check_known ref key m = elim (lookup key m) [
    | none ↦ fail (errorf "unknown config '%s' for install '%s'" (text key ∷ text ref.name ∷ []))
    | some _ ↦ pure tt
  ]

  -- The second half of `Get` is the text of `List` again.
  unfoldable pub get : InstallReference → String → Io W String
  unfolding list check_known
  get ref key = do
    config_map ← annotate "failed to get config map" [] (list ref)
    check_known ref key config_map
    m ← list ref
    pure (lookup_or "" key m)

  unfoldable pub set : InstallReference → String → String → Io W (Unit {0})
  unfolding list check_known override
  set ref key value = do
    config_map ← annotate "failed to get config map" [] (list ref)
    check_known ref key config_map
    original ← get_install "couldn't find install %q" ref
    annotate "couldn't patch install %q" (text ref.name ∷ []) (
        Resource.patch installs (λ i. i.name) (λ i. i.namespace)
          (with_parameters original (override key value original.spec.parameters)) original)

  unfoldable pub remove : InstallReference → String → Io W (Unit {0})
  unfolding reset
  remove ref key = do
    original ← get_install "couldn't find install %q" ref
    secret ← annotate "Failed to get global secret" [] (get_global_secret secrets entropy)
    annotate "couldn't patch install %q" (text ref.name ∷ []) (
        Resource.patch installs (λ i. i.name) (λ i. i.namespace)
          (with_parameters original (reset secret ref.name key original.spec.parameters)) original)
