-- ===== src/Tests/Rollouts.antt =====
-- The waits and the viewers in that cluster.
use kube_bundler.Tests.World.{daemon_set}
use kube_bundler.Prelude.{ℕ, String, ◌≡◌, refl, ◌↔◌, none, some, List, [], ◌∷◌, true, arith}
use kube_bundler.Prelude.Int.{ℤ}
use kube_bundler.Go.Io.{Result, ok}
use kube_bundler.Cluster.Objects.{Job, Pod, ContainerStatus}
use kube_bundler.Rollout.Viewers.{deployment_status, stateful_set_status, daemon_set_status}
use kube_bundler.Rollout.Revision.{get_deployment_condition}
use kube_bundler.Rollout.Done.{
  viewers-IsDone_iff, DaemonSetRolledOut, IsDone, DeploymentRolledOut, StatefulSetRolledOut,
}
use kube_bundler.Resources.Workload.{rollout_round}
use kube_bundler.Resources.Poll.{Round, pause, wait}
use kube_bundler.Resources.Poll.Laws.{Ticks, wait-total}
use kube_bundler.Resources.Waits.{Saw, deployment_wait-RolledOut}
use kube_bundler.Resources.Deployment
use kube_bundler.Resources.Pods.{add_pods}
use kube_bundler.Resources.Pods.Complete.{IsExact, add_pods-IsExact}
use kube_bundler.Tests.World.{
  clock, deployment, stateful_set, job, world, handle, converter, timeout, lossless,
}

deployment_wait-RolledOut_example :
    Saw world
      (Deployment.round world converter handle)
      (Deployment.expired world converter handle)
      timeout
      (λ u. (world.deployments.get "default" "web" u).0)
      DeploymentRolledOut
      0
      pause
unfolding Deployment.wait wait Deployment.round rollout_round deployment_status
    get_deployment_condition
deployment_wait-RolledOut_example =
    deployment_wait-RolledOut world handle 3 timeout 0 pause converter lossless refl

abbrev round : ℕ → Round × ℕ
round = Deployment.round world converter handle

round-Ticks : Ticks clock round
unfolding Deployment.round rollout_round
round-Ticks = record {
  time = λ w. w;
  now-ge = λ w. omega arith;
  now-le = λ w. omega arith;
  body-le = λ w. omega arith;
  sleep-le = λ n w. omega arith;
}

wait-total_example :
    (r : Result (Unit {0}) × ℕ) × (wait clock round
        (Deployment.expired world converter handle)
        3
        timeout
        0
      ≡ some r)
wait-total_example =
    wait-total clock round (Deployment.expired world converter handle) round-Ticks 2 timeout 0
      (omega arith)

abbrev jobs : List Job
jobs = job 3 [] ∷ job 8 [] ∷ job 5 [] ∷ []

abbrev container : String → ContainerStatus
container name = record {
  name = name;
  restart_count = ℤ.pos 0;
  state = record { running = true; waiting = none; terminated = none };
}

abbrev pod : Pod
pod = record {
  name = "web-0";
  namespace = "default";
  node_name = "node";
  phase = "Running";
  host_ip = "";
  container_names = "app" ∷ [];
  init_container_statuses = container "init" ∷ [];
  container_statuses = container "app" ∷ [];
}

viewers-IsDone_iff_example :
    (IsDone (deployment_status (ok (deployment (ℤ.pos 2))) (ℤ.pos 0))
      ↔ DeploymentRolledOut (deployment (ℤ.pos 2)))
    × (IsDone (stateful_set_status (ok (stateful_set (ℤ.pos 3))) (ℤ.pos 0))
        ↔ StatefulSetRolledOut (stateful_set (ℤ.pos 3)))
    × (IsDone (daemon_set_status (ok (daemon_set (ℤ.pos 3))) (ℤ.pos 0))
        ↔ DaemonSetRolledOut (daemon_set (ℤ.pos 3)))
viewers-IsDone_iff_example =
    viewers-IsDone_iff (deployment (ℤ.pos 2)) (stateful_set (ℤ.pos 3)) (daemon_set (ℤ.pos 3))
      (ℤ.pos 0)

add_pods-IsExact_example : IsExact "svc" (pod ∷ []) (add_pods "svc" (pod ∷ []) [])
add_pods-IsExact_example = add_pods-IsExact "svc" (pod ∷ [])
