-- ===== src/Cluster/Clients.antt =====
-- The clients of the Kubernetes API and the other services outside the program, each a record of
-- the calls that the program makes. `W` is the world that the calls read and change.
use kube_bundler.Prelude.Dict.{Dict}
use kube_bundler.Prelude.{Bool, Option, String, ℕ, Option, List}
use kube_bundler.Prelude.Int.{ℤ}
use kube_bundler.Go.Errors.{Error}
use kube_bundler.Go.Io.{Io, Result}
use kube_bundler.Cluster.Objects.{Secret, Pod, Deployment, StatefulSet, DaemonSet, Job}
use kube_bundler.Cluster.Objects.{CronJob}

-- controller-runtime's `client.Client` at objects of one kind. Names stand before namespaces.
pub record Objects (W A : Type 0) : Type 0 where
  pub get : String → String → Io W A
  pub list : String → Io W (List A)
  pub create : A → Io W (Unit {0})
  pub patch : A → A → Io W (Unit {0})  -- the new object, and the one that it was derived from
  pub apply : A → Io W (Unit {0})
  pub delete_all_of : String → String → Io W (Unit {0})

-- `CoreV1().Secrets(namespace)`
pub record SecretClient (W : Type 0) : Type 0 where
  pub get : String → String → Io W Secret
  pub create : String → Secret → Io W (Unit {0})
  pub update : String → Secret → Io W (Unit {0})

pub data PatchType : Type 0 where
  strategic_merge json : PatchType

pub record Scale : Type 0 where
  pub name : String
  pub replicas : ℤ

-- A typed client such as `AppsV1().Deployments(namespace)`. Namespaces stand first.
pub record Workloads (W A : Type 0) : Type 0 where
  pub get : String → String → Io W A
  pub list : String → String → Io W (List A)  -- by a label selector
  pub patch : String → String → PatchType → String → Io W (Unit {0})
  pub get_scale : String → String → Io W Scale
  pub update_scale : String → String → Scale → Io W (Unit {0})
  pub delete : String → String → Io W (Unit {0})

pub record LogOptions : Type 0 where
  pub container : String
  pub follow : Bool
  pub tail_lines : Option ℤ

-- `CoreV1().Pods(namespace)`. An open log stream is known by a number.
pub record PodClient (W : Type 0) : Type 0 where
  pub list : String → String → Io W (List Pod)
  pub delete_collection : String → String → Io W (Unit {0})
  pub open_log : String → String → LogOptions → Io W ℕ

-- The dynamic client of the Kubegres custom resource: `spec.replicas` is read and written.
pub record KubegresClient (W : Type 0) : Type 0 where
  pub get : String → String → Io W ℤ
  pub update : String → String → ℤ → Io W (Unit {0})
  pub delete : String → String → Io W (Unit {0})

-- crypto/rand, crypto/rsa, crypto/x509 and encoding/pem. `random_bytes n` reads n bytes.
pub record Entropy (W Key : Type 0) : Type 0 where
  pub random_bytes : ℕ → Io W (List ℕ)
  pub generate_key : ℤ → Io W Key
  pub validate_key : Key → Option Error
  pub pem_encode : String → Key → Option String

-- The wall clock in nanoseconds. Between two calls any time may pass.
pub record Clock (W : Type 0) : Type 0 where
  pub now : W → ℕ × W
  pub sleep : ℕ → W → W
  pub rfc3339 : ℕ → String  -- `Format(time.RFC3339)`

-- `kubernetes.Interface`, with `labels.SelectorFromSet(labels).String()` and the conversions to
-- and from unstructured objects that stand between a typed object and its status viewer.
pub record Clientset (W : Type 0) : Type 0 where
  pub clock : Clock W
  pub pods : PodClient W
  pub deployments : Workloads W Deployment
  pub stateful_sets : Workloads W StatefulSet
  pub daemon_sets : Workloads W DaemonSet
  pub jobs : Workloads W Job
  pub cron_jobs : Workloads W CronJob
  pub kubegres : Result (KubegresClient W)  -- `ctrl.GetConfig` may fail
  pub selector : Dict String → String
