-- ===== src/Cluster/Objects.antt =====
-- The Kubernetes objects that the program reads, with the fields that it reads. They are types of
-- the Kubernetes API, not of this repository. An `int32` is an integer, a pointer is an option.
use kube_bundler.Prelude.{String, ℕ, Bool, Option, List}
use kube_bundler.Prelude.Dict.{Dict}
use kube_bundler.Prelude.Int.{ℤ}

pub record Secret : Type 0 where
  pub name : String
  pub namespace : String
  pub entries : Option (Dict String)  -- `Data`; a nil map is `none`

pub record Terminated : Type 0 where
  pub reason : String
  pub exit_code : ℤ

pub record ContainerState : Type 0 where
  pub running : Bool
  pub waiting : Option String  -- the reason
  pub terminated : Option Terminated

pub record ContainerStatus : Type 0 where
  pub name : String
  pub restart_count : ℤ
  pub state : ContainerState

pub record Pod : Type 0 where
  pub name : String
  pub namespace : String
  pub node_name : String
  pub phase : String
  pub host_ip : String
  pub container_names : List String  -- of `Spec.Containers`
  pub init_container_statuses : List ContainerStatus
  pub container_statuses : List ContainerStatus

pub record Condition : Type 0 where
  pub type : String
  pub status : String
  pub reason : String

pub record Deployment : Type 0 where
  pub name : String
  pub annotations : Dict String
  pub generation : ℤ
  pub match_labels : Dict String
  pub spec_replicas : Option ℤ
  pub observed_generation : ℤ
  pub conditions : List Condition
  pub replicas : ℤ
  pub updated_replicas : ℤ
  pub ready_replicas : ℤ
  pub available_replicas : ℤ

pub record DaemonSet : Type 0 where
  pub name : String
  pub generation : ℤ
  pub match_labels : Dict String
  pub update_strategy : String
  pub observed_generation : ℤ
  pub number_ready : ℤ
  pub number_available : ℤ
  pub desired_number_scheduled : ℤ
  pub updated_number_scheduled : ℤ

pub record StatefulSet : Type 0 where
  pub name : String
  pub namespace : String
  pub generation : ℤ
  pub match_labels : Dict String
  pub update_strategy : String
  pub rolling_update : Option (Option ℤ)  -- the strategy's parameters, with their `Partition`
  pub spec_replicas : Option ℤ
  pub observed_generation : ℤ
  pub ready_replicas : ℤ
  pub current_replicas : ℤ
  pub updated_replicas : ℤ
  pub current_revision : String
  pub update_revision : String

pub record Job : Type 0 where
  pub name : String
  pub match_labels : Dict String
  pub completions : Option ℤ
  pub parallelism : Option ℤ
  pub creation_timestamp : ℕ
  pub conditions : List Condition

pub record CronJob : Type 0 where
  pub name : String
  pub suspend : Option Bool
  pub job_labels : Dict String

-- Of the quantities in the `Allocatable` of a node only the results of `Value()` are kept, which rounds a fraction up to
-- the next whole unit. A missing entry is zero.
pub record Node : Type 0 where
  pub name : String
  pub cpu_value : ℤ
  pub memory_value : ℤ

pub record ConfigMap : Type 0 where
  pub name : String
  pub namespace : String
  pub entries : Option (Dict String)  -- `Data`; a nil map is `none`

pub record VolumeMount : Type 0 where
  pub name : String
  pub mount_path : String

-- A volume that holds a config map.
pub record Volume : Type 0 where
  pub name : String
  pub config_map : String

pub record Container : Type 0 where
  pub name : String
  pub image : String
  pub args : List String
  pub run_as_non_root : Bool
  pub volume_mounts : List VolumeMount

-- A job with the fields that the deploy manager writes, and the conditions that it reads.
pub record DeployJob : Type 0 where
  pub name : String
  pub namespace : String
  pub backoff_limit : ℤ
  pub active_deadline_seconds : ℤ
  pub pod_active_deadline_seconds : ℤ
  pub termination_grace_period_seconds : ℤ
  pub restart_policy : String
  pub containers : List Container
  pub volumes : List Volume
  pub conditions : List Condition
