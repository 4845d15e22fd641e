-- ===== src/Tests/World.antt =====
-- A cluster whose only state is the time: every rollout ends after five seconds.
use kube_bundler.Prelude.{ℕ, ◌+◌, ◌≡◌, some, List, [], ◌∷◌, true, false, ltb, if◌then◌else◌, Bool}
use kube_bundler.Prelude.Int.{ℤ}
use kube_bundler.Go.Errors.{errorf}
use kube_bundler.Go.Io.{ok, err}
use kube_bundler.Cluster.Objects.{Deployment, StatefulSet, DaemonSet, Job, CronJob, Condition}
use kube_bundler.Cluster.Clients.{Clientset, Workloads, Clock}
use kube_bundler.Resources.Handle.{Handle}
use kube_bundler.Resources.Workload.{Converter}
use kube_bundler.Resources.Poll.{pause}
use kube_bundler.Prelude.{sym}

abbrev pub clock : Clock ℕ
clock = record { now = λ w. (w, w); sleep = λ n w. w + n; rfc3339 = λ n. "now" }

-- The answers of an API where the object is a function of the time.
abbrev pub workloads : {A : Type 0} → (ℕ → A) → Workloads ℕ A
workloads at = record {
  get = λ namespace name w. (ok (at w), w);
  list = λ namespace selector w. (ok (at w ∷ []), w);
  patch = λ namespace name type payload w. (ok tt, w);
  get_scale = λ namespace name w. (ok (record { name = name; replicas = ℤ.pos 0 }), w);
  update_scale = λ namespace name scale w. (ok tt, w);
  delete = λ namespace name w. (ok tt, w);
}

abbrev pub later : {A : Type 0} → A → A → ℕ → A
later before after w = if ltb w pause then before else after

abbrev pub deployment : ℤ → Deployment
deployment available = record {
  name = "web";
  annotations = [];
  generation = ℤ.pos 2;
  match_labels = ("app", "web") ∷ [];
  spec_replicas = some (ℤ.pos 2);
  observed_generation = ℤ.pos 2;
  conditions = [];
  replicas = ℤ.pos 2;
  updated_replicas = ℤ.pos 2;
  ready_replicas = available;
  available_replicas = available;
}

abbrev pub daemon_set : ℤ → DaemonSet
daemon_set available = record {
  name = "agent";
  generation = ℤ.pos 1;
  match_labels = [];
  update_strategy = "RollingUpdate";
  observed_generation = ℤ.pos 1;
  number_ready = available;
  number_available = available;
  desired_number_scheduled = ℤ.pos 3;
  updated_number_scheduled = ℤ.pos 3;
}

abbrev pub stateful_set : ℤ → StatefulSet
stateful_set ready = record {
  name = "db";
  namespace = "default";
  generation = ℤ.pos 1;
  match_labels = [];
  update_strategy = "RollingUpdate";
  rolling_update = some (some (ℤ.pos 1));
  spec_replicas = some (ℤ.pos 3);
  observed_generation = ℤ.pos 1;
  ready_replicas = ready;
  current_replicas = ℤ.pos 1;
  updated_replicas = ℤ.pos 2;
  current_revision = "a";
  update_revision = "b";
}

abbrev pub job : ℕ → List Condition → Job
job time conditions = record {
  name = "backup";
  match_labels = [];
  completions = some (ℤ.pos 1);
  parallelism = some (ℤ.pos 1);
  creation_timestamp = time;
  conditions = conditions;
}

abbrev pub complete : Condition
complete = record { type = "Complete"; status = "True"; reason = "" }

abbrev pub cron_job : Bool → CronJob
cron_job suspended = record { name = "nightly"; suspend = some suspended; job_labels = [] }

abbrev pub world : Clientset ℕ
world = record {
  clock = clock;
  pods = record {
    list = λ namespace selector w. (ok [], w);
    delete_collection = λ namespace selector w. (ok tt, w);
    open_log = λ namespace pod opts w. (ok 1, w);
  };
  deployments = workloads (later (deployment (ℤ.pos 1)) (deployment (ℤ.pos 2)));
  stateful_sets = workloads (later (stateful_set (ℤ.pos 2)) (stateful_set (ℤ.pos 3)));
  daemon_sets = workloads (later (daemon_set (ℤ.pos 0)) (daemon_set (ℤ.pos 3)));
  jobs = workloads (later (job 0 []) (job 0 (complete ∷ [])));
  cron_jobs = workloads (later (cron_job true) (cron_job false));
  kubegres = err (errorf "no cluster" []);
  selector = λ labels. "";
}

abbrev pub handle : Handle
handle = record {
  category = "app";
  service_name = "svc";
  name = "web";
  namespace = "default";
  available_replicas = ℤ.pos 0;
  total_replicas = ℤ.pos 0;
}

abbrev pub converter : {A : Type 0} → Converter A A
converter = record { to_unstructured = λ a. ok a; from_unstructured = λ a. ok a }

pub lossless : {A : Type 0} (a u : A) → ok a ≡ ok u → ok u ≡ ok a
lossless a u p = sym p

abbrev pub timeout : ℕ
timeout = 10_000_000_000
