-- ===== src/Tests/Client.antt =====
-- A cluster for the managers, whose only state is the time: everything is found, and every job is
-- complete.
use kube_bundler.Prelude.{sym, if◌then◌else◌, ◌==◌}
use kube_bundler.Prelude.{ℕ, String, ap, none, List, [], ◌∷◌}
use kube_bundler.Prelude.Int.{ℤ}
use kube_bundler.Go.Errors.{errorf}
use kube_bundler.Go.Io.{Result, ok, err, panic}
use kube_bundler.Api.{Application, Install, Flavor, Manifest, RequiresList, Resource as AppResource}
use kube_bundler.Cluster.Objects.{Deployment, StatefulSet, DaemonSet, Pod, DeployJob}
use kube_bundler.Cluster.Clients.{Clientset, Objects, SecretClient, Entropy}
use kube_bundler.Managers.Client.{KbClient, Libraries}
use kube_bundler.Managers.Config.{InstallReference}
use kube_bundler.Managers.Rollout.Laws.{Lossless}
use kube_bundler.Tests.World.{world, complete}

pub data Unstructured : Type 0 where
  deployment : Deployment → Unstructured
  stateful_set : StatefulSet → Unstructured
  daemon_set : DaemonSet → Unstructured
  content : String → Unstructured

abbrev as_deployment : Unstructured → Result Deployment
as_deployment (Unstructured.deployment a) = ok a
as_deployment _ = err (errorf "wrong kind" [])

abbrev as_stateful_set : Unstructured → Result StatefulSet
as_stateful_set (Unstructured.stateful_set a) = ok a
as_stateful_set _ = err (errorf "wrong kind" [])

abbrev as_daemon_set : Unstructured → Result DaemonSet
as_daemon_set (Unstructured.daemon_set a) = ok a
as_daemon_set _ = err (errorf "wrong kind" [])

abbrev read : {A : Type 0} → (Unstructured → Result A) → Result Unstructured → Result A
read f (ok u) = f u
read f (err e) = err e
read f (panic why) = panic why

abbrev pub objects : {A : Type 0} → (String → A) → Objects ℕ A
objects named = record {
  get = λ name namespace w. (ok (named name), w);
  list = λ namespace w. (ok [], w);
  create = λ a w. (ok tt, w);
  patch = λ a b w. (ok tt, w);
  apply = λ a w. (ok tt, w);
  delete_all_of = λ name namespace w. (ok tt, w);
}

abbrev resource : String → String → AppResource
resource name type = record { name = name; category = "app"; type = type }

abbrev pub application : List RequiresList → String → Application
application requires name = record {
  name = name;
  namespace = "default";
  spec = record {
    name = name;
    version = "1.0";
    docker_registry = "registry";
    deploy_image = "deploy";
    images = [];
    parameter_definitions = [];
    provides = [];
    requires = requires;
    resources = resource "web" "deployment" ∷ resource "port" "service" ∷ resource "no" "such" ∷ [];
    status = [];
  };
}

abbrev pub install : String → Install
install name = record {
  name = name;
  namespace = "default";
  spec = record {
    application = name;
    version = "1.0";
    suffix = "";
    deploy_image = "";
    flavor = "small";
    docker_registry = "";
    parameters = [];
    secrets = [];
  };
}

abbrev flavor : String → Flavor
flavor name = record {
  name = name;
  namespace = "default";
  spec = record {
    name = name;
    stateful_quorum_replicas = ℤ.pos 1;
    stateful_replication_replicas = ℤ.pos 1;
    stateless_replicas = ℤ.pos 1;
    anti_affinity = "";
    minimum_nodes = ℤ.pos 1;
  };
}

abbrev pub needs : String → RequiresList
needs name = record { name = name; suffix = ""; parameters = [] }

-- The bundle "web" needs "db", which stands behind it.
abbrev pub manifest : String → Manifest
manifest name = record {
  name = name;
  namespace = "default";
  spec = record {
    flavor = "small";
    registry = "";
    sources = [];
    bundles =
        record { name = "web"; version = "1.0"; parameters = []; requires = needs "db" ∷ [] }
        ∷ record { name = "db"; version = "1.0"; parameters = []; requires = [] }
        ∷ [];
    cpu = "";
    memory = "";
  };
}

abbrev job : String → DeployJob
job name = record {
  name = name;
  namespace = "default";
  backoff_limit = ℤ.pos 0;
  active_deadline_seconds = ℤ.pos 0;
  pod_active_deadline_seconds = ℤ.pos 0;
  termination_grace_period_seconds = ℤ.pos 0;
  restart_policy = "";
  containers = [];
  volumes = [];
  conditions = complete ∷ [];
}

abbrev pub pod : Pod
pod = record {
  name = "web-0";
  namespace = "default";
  node_name = "node";
  phase = "Running";
  host_ip = "";
  container_names = "deploy" ∷ [];
  init_container_statuses = [];
  container_statuses = [];
}

abbrev pub running : Clientset ℕ
running = record world {
  pods = record world.pods { list = λ namespace selector w. (ok (pod ∷ []), w) };
}

abbrev no_secrets : SecretClient ℕ
no_secrets = record {
  get = λ namespace name w. (err (errorf "no secrets" []), w);
  create = λ namespace s w. (ok tt, w);
  update = λ namespace s w. (ok tt, w);
}

abbrev no_entropy : Entropy ℕ ℕ
no_entropy = record {
  random_bytes = λ n w. (ok [], w);
  generate_key = λ bits w. (ok 0, w);
  validate_key = λ key. none;
  pem_encode = λ header key. none;
}

abbrev pub client : Clientset ℕ → KbClient ℕ ℕ Unstructured
client k = record {
  clientset = k;
  nodes = λ w. (ok [], w);
  applications =
      objects (λ name. application (if name == "web-1.0" then needs "db" ∷ [] else []) name);
  installs = objects install;
  flavors = objects flavor;
  manifests = objects manifest;
  sources = objects (λ name. record {
    name = name;
    namespace = "default";
    spec = record { type = "directory"; path = ""; options = [] };
  });
  registries = objects (λ name. record {
    name = name;
    namespace = "default";
    spec = record { image = ""; flavor = ""; node_selector = []; host_path = "" };
  });
  jobs = objects job;
  unstructured = objects Unstructured.content;
  installs_matching = λ fields namespace w. (ok (install "web" ∷ []), w);
  config_maps = objects (λ name. record { name = name; namespace = "default"; entries = none });
  create_or_patch = λ cm change w. (ok tt, w);
  secrets = no_secrets;
  entropy = no_entropy;
  deployments = record {
    to_unstructured = λ a. ok (Unstructured.deployment a);
    from_unstructured = as_deployment;
  };
  stateful_sets = record {
    to_unstructured = λ a. ok (Unstructured.stateful_set a);
    from_unstructured = as_stateful_set;
  };
  daemon_sets = record {
    to_unstructured = λ a. ok (Unstructured.daemon_set a);
    from_unstructured = as_daemon_set;
  };
}

pub client-Lossless : (k : Clientset ℕ) → Lossless (client k)
client-Lossless k = record {
  deployments = λ a u p. sym (ap (read as_deployment) p);
  stateful_sets = λ a u p. sym (ap (read as_stateful_set) p);
  daemon_sets = λ a u p. sym (ap (read as_daemon_set) p);
}

abbrev pub libraries : Libraries ℕ Unstructured
libraries = record {
  json_parameters = λ m. ok "{}";
  json_install_spec = λ spec. ok "{}";
  json_requires = λ rs. ok "[]";
  json_flavor_spec = λ spec. ok "{}";
  json_install = λ i. ok i.name;
  unmarshal = λ s. ok (Unstructured.content s);
  name_of = λ u. "";
  url_path = λ s. ok "/deploy";
  path_join = λ parts. "registry/deploy";
  parse_quantity = λ s. if s == "2" then ok (ℤ.pos 2) else err (errorf "no quantity" []);
  copy_log = λ show stream w. (ok tt, w);
  close_log = λ stream w. w;
}

abbrev pub ref : InstallReference
ref = record { name = "web"; namespace = "default" }
