-- ===== src/Managers/DeployJob.antt =====
-- The first half of managers/deploy.go: the config map and the job that a deploy creates.
use kube_bundler.Prelude.{ℕ, String, ◌<>◌, false, Option, none, some, List, [], ◌∷◌, ◌+◌, ◌/◌}
use kube_bundler.Prelude.Dict.{Dict, insert}
use kube_bundler.Prelude.Int.{ℤ}
use kube_bundler.Go.Io.{Io, pure, annotate, lift, ◌>>=◌}
use kube_bundler.Go.Split.{split_on_space}
use kube_bundler.Api.{ParameterSpec, ParameterDefinitionSpec, RequiresList, InstallSpec, FlavorSpec}
use kube_bundler.Cluster.Objects.{ConfigMap, VolumeMount, Volume, DeployJob}
use kube_bundler.Parameter.Manager.{get_merged_map}
use kube_bundler.Managers.Client.{KbClient, Libraries}
use kube_bundler.Managers.Util.{get_resource_name, get_name_with_action}
use kube_bundler.Managers.Resource
use kube_bundler.Managers.Resource.{second}

abbrev pub action_apply_outputs : String
action_apply_outputs = "apply outputs"

abbrev pub action_apply : String
action_apply = "apply"

abbrev pub action_diff : String
action_diff = "diff"

abbrev pub action_delete : String
action_delete = "delete"

abbrev pub parameters_file : String
parameters_file = "parameters.json"

abbrev pub install_file : String
install_file = "install.json"

abbrev pub requires_file : String
requires_file = "requires.json"

abbrev pub flavor_file : String
flavor_file = "flavor.json"

pub record DeployInfo : Type 0 where
  pub name : String
  pub namespace : String
  pub action : String
  pub timeout : ℕ  -- in nanoseconds
  pub config_map : String
  pub image : String
  pub docker_registry : String
  pub parameters : List ParameterSpec
  pub definitions : List ParameterDefinitionSpec
  pub requires : List RequiresList
  pub install_spec : InstallSpec
  pub flavor_spec : FlavorSpec

-- The texts of the four files.
pub record Files : Type 0 where
  pub parameters : String
  pub install : String
  pub requires : String
  pub flavor : String

-- `if cm.Data == nil { cm.Data = make(map[string]string) }`
unfoldable pub made : Option (Dict String) → Dict String
made none = []
made (some m) = m

-- The function that changes the config map.
unfoldable pub with_files : Files → ConfigMap → ConfigMap
unfolding made
with_files f cm = record cm {
  entries = some (
      insert flavor_file f.flavor (
        insert requires_file f.requires
          (insert install_file f.install (insert parameters_file f.parameters (made cm.entries)))));
}

abbrev pub no_config_map : ConfigMap
no_config_map = record { name = ""; namespace = ""; entries = none }

abbrev pub base_name : RequiresList → String
base_name r = get_resource_name r.name r.suffix

unfoldable pub input_mounts : List RequiresList → List VolumeMount
unfolding get_resource_name
input_mounts [] = []
input_mounts (r ∷ rs) =
    record { name = base_name r <> "-config"; mount_path = "/config/inputs/" <> base_name r }
    ∷ input_mounts rs

unfoldable pub input_volumes : List RequiresList → List Volume
unfolding get_resource_name
input_volumes [] = []
input_volumes (r ∷ rs) =
    record { name = base_name r <> "-config"; config_map = base_name r <> "-config" }
    ∷ input_volumes rs

abbrev pub grace_period : ℕ
grace_period = 1

unfoldable pub deadline_seconds : ℕ → ℕ
deadline_seconds timeout = timeout / second + grace_period + grace_period

-- The job's container and its volumes.
unfoldable pub deploy_job : DeployInfo → DeployJob
unfolding get_name_with_action input_mounts input_volumes deadline_seconds split_on_space
deploy_job info =
    let name = get_name_with_action info.name info.action in
    record {
      name = name;
      namespace = info.namespace;
      backoff_limit = ℤ.pos 0;
      active_deadline_seconds = ℤ.pos (deadline_seconds info.timeout);
      pod_active_deadline_seconds = ℤ.pos (deadline_seconds info.timeout);
      termination_grace_period_seconds = ℤ.pos grace_period;
      restart_policy = "Never";
      containers =
          record {
            name = name;
            image = info.image;
            args = split_on_space info.action;
            run_as_non_root = false;
            volume_mounts =
                record { name = name <> "-config"; mount_path = "/config" }
                ∷ input_mounts info.requires;
          }
          ∷ [];
      volumes =
          record { name = name <> "-config"; config_map = info.config_map }
          ∷ input_volumes info.requires;
      conditions = [];
    }

module _ {W Key U : Type 0} (c : KbClient W Key U) (l : Libraries W U) where
  -- The texts, in the order in which they are made.
  unfoldable pub encode_files : DeployInfo → Io W Files
  encode_files info = do
    m ← annotate "couldn't get merged map" [] (
        get_merged_map c.secrets c.entropy (record {
          install_name = info.name;
          definitions = info.definitions;
          parameters = info.parameters;
        }))
    p ← annotate "couldn't encode parameters to json" [] (lift (l.json_parameters m))
    i ←
        annotate "couldn't encode install spec to json" []
          (lift (l.json_install_spec info.install_spec))
    r ← annotate "couldn't encode require list to json" [] (lift (l.json_requires info.requires))
    f ←
        annotate "couldn't encode flavor spec to json" []
          (lift (l.json_flavor_spec info.flavor_spec))
    pure (record { parameters = p; install = i; requires = r; flavor = f })

  unfoldable pub create_or_patch_configmap : DeployInfo → Io W (Unit {0})
  unfolding encode_files with_files
  create_or_patch_configmap info = do
    files ← encode_files info
    annotate "couldn't create or update configmap" [] (
        Resource.create_or_patch c.config_maps
          (λ name namespace cm. record cm { name = name; namespace = namespace }) c.create_or_patch
          info.config_map info.namespace no_config_map (with_files files))

  unfoldable pub create_job : DeployInfo → Io W (Unit {0})
  unfolding deploy_job
  create_job info =
      annotate "couldn't create job" []
        (Resource.create c.jobs (λ j. j.name) (λ j. j.namespace) (deploy_job info))
