-- ===== src/Tests/Deploys.antt =====
-- Rollouts, deploys and manifests in that cluster.
use kube_bundler.Prelude.{◌+◌}
use kube_bundler.Prelude.{
  ℕ, ◌≡◌, refl, ◌<>◌, String, none, List, [], ◌∷◌, All, true, false, ◌↔◌, inl, arith,
  String-discrete,
}
use kube_bundler.Prelude.Int.{ℤ}
use kube_bundler.Prelude.Dict.{lookup, insert, lookup_or}
use kube_bundler.Go.Io.{Io, ok}
use kube_bundler.Go.Run.{Returns}
use kube_bundler.Managers.Rollout
use kube_bundler.Managers.Resource
use kube_bundler.Managers.Deploy
use kube_bundler.Managers.Prepare
use kube_bundler.Managers.DeployJob.{create_or_patch_configmap, create_job}
use kube_bundler.Parameter.Manager.{get_merged_map, merge_definitions, merge_parameters}
use kube_bundler.Parameter.Manager
use kube_bundler.Resources.Deployment
use kube_bundler.Resources.Poll
use kube_bundler.Resources.Workload.{rollout_round}
use kube_bundler.Rollout.Viewers.{deployment_status}
use kube_bundler.Rollout.Revision.{get_deployment_condition}
use kube_bundler.Go.Run.{attempt}
use kube_bundler.Api.{ManifestSpec}
use kube_bundler.Cluster.Objects.{Node}
use kube_bundler.Resources.Poll.{pause}
use kube_bundler.Managers.DeployJob.{DeployInfo, deploy_job, action_apply}
use kube_bundler.Managers.Prepare.{DeployOpts}
use kube_bundler.Managers.Deploy.Laws.{Deployed, deploy-Deployed, smoketest-Deployed}
use kube_bundler.Managers.JobPoll.{get_logs, poll_job, read_job, get_job}
use kube_bundler.Managers.JobPoll.Reads.{Polled}
use kube_bundler.Managers.JobPoll.Stuck.{get_logs-stuck}
use kube_bundler.Managers.JobPoll.Total.{Ticks, poll_job-total}
use kube_bundler.Managers.Manifest.{ManifestReference, deploy_manifest}
use kube_bundler.Managers.ManifestPlan.{make_plan}
use kube_bundler.Tests.Solvers.{solve, solve-Sound}
use kube_bundler.Managers.Manifest.Laws.{AllDeployed, deploy_manifest-AllDeployed}
use kube_bundler.Managers.Util.{action_smoketest, check_capacity}
use kube_bundler.Managers.Util.Laws.{IsLargeEnough, check_capacity_iff}
use kube_bundler.Tests.Client.{client, running, libraries, client-Lossless, ref, install, manifest}
use kube_bundler.Tests.World.{world, timeout, job}

abbrev second : ℕ
second = 1_000_000_000

abbrev apply_opts : DeployOpts
apply_opts = record { action = action_apply; timeout = timeout }

deploy-Deployed_example :
    Deployed (client running) libraries 5 ref apply_opts true 0 (second + pause)
unfolding Resource.get Deploy.deploy Prepare.prepare Manager.validate Resource.delete
    create_or_patch_configmap Resource.create_or_patch create_job Resource.create poll_job attempt
    Rollout.wait get_merged_map merge_definitions merge_parameters String-discrete Deployment.wait
    Poll.wait Deployment.round rollout_round deployment_status get_deployment_condition
deploy-Deployed_example =
    deploy-Deployed (client running) libraries 5 (client-Lossless running) ref apply_opts true 0
      (second + pause) refl

abbrev smoketest_opts : DeployOpts
smoketest_opts = record { action = action_smoketest; timeout = timeout }

smoketest-Deployed_example :
    (d : Deployed (client running) libraries 5 ref smoketest_opts true 0 (second + pause))
    × ((deploy_job d.info).name ≡ "web" <> "-smoketest")
    × ((client running).jobs.create (deploy_job d.info) d.configured ≡ (ok tt, d.created))
    × Polled (client running) libraries 5 timeout "web" "default" ref true d.created d.polled
unfolding Resource.get Deploy.smoketest Deploy.deploy Prepare.prepare Manager.validate
    Resource.delete create_or_patch_configmap Resource.create_or_patch create_job Resource.create
    poll_job attempt Rollout.wait get_merged_map merge_definitions merge_parameters String-discrete
    Deployment.wait Poll.wait Deployment.round rollout_round deployment_status
    get_deployment_condition
smoketest-Deployed_example =
    smoketest-Deployed (client running) libraries 5 (client-Lossless running) ref true timeout 0
      (second + pause) refl

get_logs-stuck_example : get_logs (client world) libraries 100 none ref 0 ≡ none
unfolding get_job
get_logs-stuck_example =
    get_logs-stuck (client world) libraries ref (job 0 []) 0 0 refl (λ v. ([], refl, inl refl)) 100

world-Ticks : Ticks (client world) libraries
unfolding read_job Resource.get
world-Ticks = record {
  time = λ w. w;
  now-ge = λ w. omega arith;
  now-le = λ w. omega arith;
  sleep-le = λ n w. omega arith;
  list-le = λ namespace selector w. omega arith;
  read-le = λ info w. omega arith;
}

abbrev info : DeployInfo
info = record {
  name = "web";
  namespace = "default";
  action = action_apply;
  timeout = timeout;
  config_map = "web-config";
  image = "deploy";
  docker_registry = "";
  parameters = [];
  definitions = [];
  requires = [];
  install_spec = (install "web").spec;
  flavor_spec = record {
    name = "small";
    stateful_quorum_replicas = ℤ.pos 1;
    stateful_replication_replicas = ℤ.pos 1;
    stateless_replicas = ℤ.pos 1;
    anti_affinity = "";
    minimum_nodes = ℤ.pos 1;
  };
}

poll_job-total_example : Returns (poll_job (client world) libraries 12 info ref true 0)
poll_job-total_example =
    poll_job-total (client world) libraries world-Ticks 11 info ref 0 (omega arith)

abbrev manifest_ref : ManifestReference
manifest_ref = record { name = "all"; namespace = "default" }

abbrev ranged : List String → Io ℕ (List String)
ranged keys w = (ok keys, w)

deploy_manifest-AllDeployed_example :
    AllDeployed
      (client running)
      libraries
      5
      true
      timeout
      false
      ranged
      manifest_ref
      0
      (second + (second + pause))
unfolding Resource.get Deploy.deploy Prepare.prepare Manager.validate Resource.delete
    create_or_patch_configmap Resource.create_or_patch create_job Resource.create poll_job attempt
    Rollout.wait get_merged_map merge_definitions merge_parameters String-discrete Deployment.wait
    Poll.wait Deployment.round rollout_round deployment_status get_deployment_condition
    deploy_manifest make_plan lookup insert lookup_or
deploy_manifest-AllDeployed_example =
    deploy_manifest-AllDeployed (client running) libraries 5 true timeout false solve ranged
      solve-Sound (client-Lossless running) manifest_ref 0 (second + (second + pause)) refl

abbrev large : ManifestSpec
large = record (manifest "all").spec { cpu = "2" }

abbrev node : Node
node = record { name = "a"; cpu_value = ℤ.pos 2; memory_value = ℤ.pos 1024 }

check_capacity_iff_example :
    (check_capacity libraries.parse_quantity large (node ∷ []) ≡ ok tt)
    ↔ All (IsLargeEnough libraries.parse_quantity large) (node ∷ [])
check_capacity_iff_example = check_capacity_iff libraries.parse_quantity large (node ∷ [])
