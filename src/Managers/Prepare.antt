-- ===== src/Managers/Prepare.antt =====
-- managers/deploy.go: what `Deploy` reads and checks before it changes the cluster.
use kube_bundler.Prelude.{ℕ, String, ◌<>◌, [], ◌∷◌, ◌==◌, if◌then◌else◌}
use kube_bundler.Go.Errors.{text}
use kube_bundler.Go.Io.{Io, Result, pure, annotate, lift, ◌>>=◌, ◌>>◌}
use kube_bundler.Api.{Application, Install, InstallSpec, Flavor}
use kube_bundler.Parameter.Manager
use kube_bundler.Managers.Client.{KbClient, Libraries}
use kube_bundler.Managers.Config.{InstallReference}
use kube_bundler.Managers.DeployJob.{DeployInfo}
use kube_bundler.Managers.Resource
use kube_bundler.Managers.Rollout.{get_install, get_app}
use kube_bundler.Managers.Util.{get_resource_name}

pub record DeployOpts : Type 0 where
  pub action : String
  pub timeout : ℕ

-- The image of the deploy job, the registry, and the install's spec with both filled in.
pub record Images : Type 0 where
  pub image : String
  pub docker_registry : String
  pub install_spec : InstallSpec

-- `if install.Spec.DeployImage == "" { … }`
unfoldable pub with_deploy_image : String → InstallSpec → InstallSpec
with_deploy_image image spec =
    if spec.deploy_image == "" then record spec { deploy_image = image } else spec

module _ {W Key U : Type 0} (c : KbClient W Key U) (l : Libraries W U) where
  -- The image under the registry of the install.
  rewritten_image : Install → Application → Io W String
  rewritten_image install app = do
    path ←
        annotate "couldn't parse docker image URL for deployImage '%s'"
          (text app.spec.deploy_image ∷ [])
          (lift (l.url_path ("https://" <> app.spec.deploy_image)))
    pure (l.path_join (install.spec.docker_registry ∷ path ∷ []))

  with_image : InstallSpec → String → Images
  unfolding with_deploy_image
  with_image spec image = record {
    image = image;
    docker_registry = spec.docker_registry;
    install_spec = with_deploy_image image spec;
  }

  -- The registry of the install, if it has one, takes the place of the image's own.
  unfoldable pub choose_images : Install → Application → Io W Images
  unfolding with_image rewritten_image
  choose_images install app =
      if install.spec.docker_registry == ""
      then pure (
          with_image (record install.spec { docker_registry = app.spec.docker_registry })
            app.spec.deploy_image)
      else (rewritten_image install app >>= λ image. pure (with_image install.spec image))

  unfoldable pub get_flavor : String → Io W Flavor
  get_flavor name =
      annotate "couldn't get flavor %q" (text name ∷ [])
        (Resource.get c.flavors (λ f. f.name) (λ f. f.namespace) name "default")

  -- `validateRequiredParameters`
  unfoldable pub validate_required_parameters : String → Application → Install → Result (Unit {0})
  validate_required_parameters name app install = Manager.validate (record {
    install_name = name;
    definitions = app.spec.parameter_definitions;
    parameters = install.spec.parameters;
  })

  unfoldable pub check_required : InstallReference → Application → Install → Io W (Unit {0})
  unfolding validate_required_parameters
  check_required ref app install =
      annotate "couldn't validate parameters for %q" (text ref.name ∷ [])
        (lift (validate_required_parameters ref.name app install))

  abbrev pub filled : InstallReference → DeployOpts → Application → Flavor → Images → DeployInfo
  filled ref opts app flavor images = record {
    name = ref.name;
    namespace = ref.namespace;
    action = opts.action;
    timeout = opts.timeout;
    config_map = get_resource_name ref.name "" <> "-config";
    image = images.image;
    docker_registry = images.docker_registry;
    parameters = images.install_spec.parameters;
    definitions = app.spec.parameter_definitions;
    requires = app.spec.requires;
    install_spec = images.install_spec;
    flavor_spec = flavor.spec;
  }

  -- The first half of `Deploy`, which changes nothing in the cluster.
  unfoldable pub prepare : InstallReference → DeployOpts → Io W DeployInfo
  unfolding get_install get_app get_flavor choose_images check_required get_resource_name
  prepare ref opts = do
    install ← get_install c ref
    flavor ← get_flavor install.spec.flavor
    app ← get_app c install ref.namespace
    check_required ref app install
    images ← choose_images install app
    pure (filled ref opts app flavor images)
