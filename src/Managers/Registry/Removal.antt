-- ===== src/Managers/Registry/Removal.antt =====
-- managers/registry.go: the removal of a registry with its contents.
pub mod Laws
use kube_bundler.Prelude.{ℕ, String, ◌<>◌, List, [], ◌∷◌}
use kube_bundler.Go.Errors.{text}
use kube_bundler.Go.Io
use kube_bundler.Go.Io.{Io}
use kube_bundler.Go.Run.{Run, once, annotate, ◌>>=◌, ◌>>◌}
use kube_bundler.Api.Registry.{Registry, sanitized_registry_name}
use kube_bundler.Cluster.Clients.{Objects}
use kube_bundler.Cluster.Objects.{Pod, Deployment}
use kube_bundler.Managers.Client.{KbClient}
use kube_bundler.Managers.Registry.{
  RegistryRef, PodTools, pod_registry_dir, docker_dir, get_registry, list_pods,
}
use kube_bundler.Managers.Resource

-- A command of a shell in a pod, with the files that are its input.
module _ {W : Type 0} (t : PodTools W) where
  unfoldable pub run_in_pod : Pod → String → List ℕ → String → String → Io W (Unit {0})
  run_in_pod pod command input message dir =
      Io.◌>>=◌
        (Io.annotate "couldn't create spdy executor" []
          (t.new_executor pod ("/bin/sh" ∷ "-c" ∷ command ∷ [])))
        (λ executor. Io.annotate message (text dir ∷ []) (t.stream executor input))

  -- `deleteRegistryContents`
  unfoldable pub delete_contents : Pod → String → Io W (Unit {0})
  unfolding run_in_pod
  delete_contents pod dir =
      run_in_pod pod ("rm -rf '" <> (dir <> "'")) [] "couldn't delete files from '%s'" dir

  -- `join` is `filepath.Join`.
  unfoldable pub empty_pods : (List String → String) → List Pod → Io W (Unit {0})
  unfolding delete_contents
  empty_pods join [] = Io.pure tt
  empty_pods join (pod ∷ pods) =
      Io.◌>>◌
        (Io.annotate "couldn't delete registry contents in pod %q" (text pod.name ∷ [])
          (delete_contents pod (join (pod_registry_dir ∷ docker_dir ∷ []))))
        (empty_pods join pods)

-- `deployments` and `services` are the clients of those objects.
module _ {W Key U Service : Type 0} (c : KbClient W Key U) (t : PodTools W)
    (deployments : Objects W Deployment) (services : Objects W Service)
    (join : List String → String) (fuel : ℕ) where
  unfoldable pub delete_objects : RegistryRef → String → Run W (Unit {0})
  delete_objects ref name = do
    annotate "couldn't delete deployment for registry %q" (text ref.name ∷ [])
        (Resource.delete deployments c.clientset.clock name ref.namespace fuel)
    annotate "couldn't delete service for registry %q" (text ref.name ∷ [])
        (Resource.delete services c.clientset.clock name ref.namespace fuel)
    annotate "couldn't delete registry %q" (text ref.name ∷ [])
        (Resource.delete c.registries c.clientset.clock ref.name ref.namespace fuel)

  unfoldable pub delete : RegistryRef → Run W (Unit {0})
  unfolding get_registry list_pods empty_pods delete_objects sanitized_registry_name
  delete ref = do
    registry ← once (get_registry c ref)
    pods ← once (list_pods c t ("registry-" <> sanitized_registry_name registry) ref.namespace)
    once (empty_pods t join pods)
    delete_objects ref ("registry-" <> sanitized_registry_name registry)
