-- ===== src/Managers/Client.antt =====
-- managers/client.go: the clients that every manager holds, and the libraries that the managers
-- call. All of it is outside the program.
use kube_bundler.Prelude.{ℕ, String, Bool, List}
use kube_bundler.Prelude.Dict.{Dict}
use kube_bundler.Prelude.Int.{ℤ}
use kube_bundler.Go.Io.{Io, Result}
use kube_bundler.Api.{
  Application, Install, InstallSpec, Flavor, FlavorSpec, Manifest, SourceObject, RequiresList,
}
use kube_bundler.Api.Registry.{Registry}
use kube_bundler.Cluster.Objects.{Deployment, StatefulSet, DaemonSet, ConfigMap, DeployJob, Node}
use kube_bundler.Cluster.Clients.{Objects, Clientset, SecretClient, Entropy}
use kube_bundler.Resources.Workload.{Converter}

-- `KBClient`. `U` is the type of unstructured objects.
pub record KbClient (W Key U : Type 0) : Type 0 where
  pub clientset : Clientset W
  pub nodes : Io W (List Node)
  pub applications : Objects W Application
  pub installs : Objects W Install
  pub flavors : Objects W Flavor
  pub manifests : Objects W Manifest
  pub sources : Objects W SourceObject
  pub registries : Objects W Registry
  pub jobs : Objects W DeployJob
  pub unstructured : Objects W U
  pub installs_matching : Dict String → String → Io W (List Install)  -- by fields
  pub config_maps : Objects W ConfigMap
  -- `controllerutil.CreateOrPatch`, given the object and the function that changes it
  pub create_or_patch : ConfigMap → (ConfigMap → ConfigMap) → Io W (Unit {0})
  pub secrets : SecretClient W
  pub entropy : Entropy W Key
  pub deployments : Converter U Deployment
  pub stateful_sets : Converter U StatefulSet
  pub daemon_sets : Converter U DaemonSet

-- encoding/json, net/url, path, resource.ParseQuantity, and what is done with an open log.
pub record Libraries (W U : Type 0) : Type 0 where
  pub json_parameters : Dict String → Result String
  pub json_install_spec : InstallSpec → Result String
  pub json_requires : List RequiresList → Result String
  pub json_flavor_spec : FlavorSpec → Result String
  pub json_install : Install → Result String
  pub unmarshal : String → Result U
  pub name_of : U → String
  pub url_path : String → Result String  -- `url.Parse`, then `Path`
  pub path_join : List String → String
  pub parse_quantity : String → Result ℤ  -- `ParseQuantity`, then `Value`, which rounds up
  pub copy_log : Bool → ℕ → Io W (Unit {0})  -- to the terminal, or to nowhere
  pub close_log : ℕ → W → W
