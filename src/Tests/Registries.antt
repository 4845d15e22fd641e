-- ===== src/Tests/Registries.antt =====
-- The bootstrap of that cluster, and a registry in it.
use kube_bundler.Prelude.{◌≡◌, refl, ℕ, true, false, [], ◌∷◌, String-discrete}
use kube_bundler.Prelude.Int.{ℤ}
use kube_bundler.Go.Io.{ok}
use kube_bundler.Managers.Embedded.{Embedded}
use kube_bundler.Managers.Bootstrap.{
  GcrInfo, gke, crd_dir, binding_dir, flavor_dir, deploy_all, deploy_crds,
}
use kube_bundler.Managers.Bootstrap.Laws.{DirApplied, Unless, deploy_all-Bootstrapped}
use kube_bundler.Managers.Registry.{RegistryArgs, RegistryRef, PodTools, deploy, deploy_proxy}
use kube_bundler.Managers.Registry.Laws.{RegistryDeployed, deploy-RegistryDeployed}
use kube_bundler.Managers.Registry.Removal.{delete}
use kube_bundler.Managers.Registry.Removal.Laws.{Removed, delete-Removed}
use kube_bundler.Managers.Resource
use kube_bundler.Managers.Resource.{second}
use kube_bundler.Prelude.{◌+◌}
use kube_bundler.Tests.Client.{client, libraries, objects, pod, Unstructured}
use kube_bundler.Tests.World.{world, deployment}

abbrev pub embedded : Embedded RegistryArgs Unstructured
embedded = record {
  read_dir = λ dir.
      ok (record { name = "old"; is_dir = true } ∷ record { name = "a.yaml"; is_dir = false } ∷ []);
  read_file = λ path. ok "kind: Flavor";
  parse_templates = λ pattern. ok tt;
  execute = λ name args. ok "kind: Deployment";
  yaml = λ s. ok (Unstructured.content s);
  join = λ parts. "resources/a.yaml";
  replace_all = λ s old new. s;
  replacer = λ pairs s. s;
  proxy_config = "kind: ConfigMap";
  proxy_daemonset = "kind: DaemonSet";
}

abbrev project : GcrInfo
project = record { registry_url = "gcr.io"; project_id = "kb" }

deploy_all-Bootstrapped_example :
    (w1 w2 w3 : ℕ) × Unless
      (client world)
      libraries
      embedded
      false
      (DirApplied (client world) libraries embedded crd_dir)
      0
      w1
    × Unless
        (client world)
        libraries
        embedded
        true
        (DirApplied (client world) libraries embedded binding_dir)
        w1
        w2
    × Unless
        (client world)
        libraries
        embedded
        false
        (DirApplied (client world) libraries embedded flavor_dir)
        w2
        w3
    × Unless
        (client world)
        libraries
        embedded
        false
        (λ u u'. deploy_proxy (client world) libraries embedded gke project u ≡ (ok tt, u'))
        w3
        0
unfolding deploy_all deploy_crds Resource.apply deploy_proxy String-discrete
deploy_all-Bootstrapped_example =
    deploy_all-Bootstrapped (client world) libraries embedded false true false false
      (deploy_proxy (client world) libraries embedded) gke project 0 0 refl

-- `retry` makes one call, and every command in a pod succeeds.
abbrev pub tools : PodTools ℕ
tools = record {
  pods_matching = λ labels namespace w. (ok (pod ∷ []), w);
  retry = λ m. m;
  new_executor = λ p command w. (ok 1, w);
  stream = λ executor input w. (ok tt, w);
}

abbrev pub registry_ref : RegistryRef
registry_ref = record { name = "images"; namespace = "default" }

deploy-RegistryDeployed_example :
    RegistryDeployed (client world) libraries embedded tools registry_ref 0 0
unfolding deploy Resource.get Resource.apply String-discrete
deploy-RegistryDeployed_example =
    deploy-RegistryDeployed (client world) libraries embedded tools (λ m w w' h. (w, h))
      registry_ref 0 0 refl

delete-Removed_example :
    Removed
      (client world)
      tools
      (objects (λ name. deployment (ℤ.pos 1)))
      (objects (λ name. name))
      (λ parts. "/var/lib/registry/docker")
      2
      registry_ref
      0
      (second + (second + second))
unfolding delete Resource.get Resource.delete String-discrete
delete-Removed_example =
    delete-Removed (client world) tools (objects (λ name. deployment (ℤ.pos 1)))
      (objects (λ name. name)) (λ parts. "/var/lib/registry/docker") 2 registry_ref 0
      (second + (second + second)) refl
