-- ===== src/Managers/Registry/Removal/Laws.antt =====
-- What happened when the removal of a registry returned no error.
use kube_bundler.Prelude.{◌≡◌, ℕ, String, ◌<>◌, List, [], ◌∷◌, arith}
use kube_bundler.Go.Each.{Each}
use kube_bundler.Go.Errors.{text}
use kube_bundler.Go.Io
use kube_bundler.Go.Io.{ok}
use kube_bundler.Go.Run.{Gives, once, annotate, >>=-ok, annotate-ok}
use kube_bundler.Api.Registry.{Registry, sanitized_registry_name}
use kube_bundler.Cluster.Clients.{Objects}
use kube_bundler.Cluster.Objects.{Pod, Deployment}
use kube_bundler.Managers.Client.{KbClient}
use kube_bundler.Managers.Registry.{
  RegistryRef, PodTools, pod_registry_dir, docker_dir, get_registry, list_pods,
}
use kube_bundler.Managers.Registry.Removal.{
  run_in_pod, delete_contents, empty_pods, delete_objects, delete,
}
use kube_bundler.Managers.Resource
use kube_bundler.Managers.Resource.Laws.{Requested, delete-Requested}

module _ {W : Type 0} (t : PodTools W) where
  -- The shell's command ran in the pod to its end.
  pub record RanInPod (pod : Pod) (command : String) (input : List ℕ) (w w' : W) : Type 0 where
    pub executor : ℕ
    pub created : W
    pub is_created : t.new_executor pod ("/bin/sh" ∷ "-c" ∷ command ∷ []) w ≡ (ok executor, created)
    pub streamed : t.stream executor input created ≡ (ok tt, w')

  pub run_in_pod-RanInPod :
      (pod : Pod) (command : String) (input : List ℕ) (message dir : String) (w w' : W)
      → run_in_pod t pod command input message dir w ≡ (ok tt, w')
      → RanInPod pod command input w w'
  unfolding run_in_pod
  run_in_pod-RanInPod pod command input message dir w w' h =
      let new = t.new_executor pod ("/bin/sh" ∷ "-c" ∷ command ∷ []) in
      let (executor, u, h1, r1) =
        Io.bind-ok (Io.annotate "couldn't create spdy executor" [] new) _ w w' tt h in
      record {
        executor = executor;
        created = u;
        is_created = Io.annotate-ok _ _ new w u executor h1;
        streamed = Io.annotate-ok _ _ (t.stream executor input) u w' tt r1;
      }

  -- The images that were imported are removed from the pod.
  abbrev pub Emptied : (List String → String) → Pod → W → W → Type 0
  Emptied join pod =
      RanInPod pod ("rm -rf '" <> (join (pod_registry_dir ∷ docker_dir ∷ []) <> "'")) []

  empty_pods-Each :
      (join : List String → String) (pods : List Pod) (w w' : W)
      → empty_pods t join pods w ≡ (ok tt, w')
      → Each (Emptied join) pods w w'
  unfolding empty_pods delete_contents
  empty_pods-Each join [] w w' h = ground (arith, h)
  empty_pods-Each join (pod ∷ pods) w w' h =
      let one = delete_contents t pod (join (pod_registry_dir ∷ docker_dir ∷ [])) in
      let (a, u, h1, r1) =
        Io.bind-ok
          (Io.annotate "couldn't delete registry contents in pod %q" (text pod.name ∷ []) one)
          (λ _. empty_pods t join pods) w w' tt h in
      (
        u,
        run_in_pod-RanInPod pod _ [] _ _ w u (Io.annotate-ok _ _ one w u tt h1),
        empty_pods-Each join pods u w' r1,
      )

module _ {W Key U Service : Type 0} (c : KbClient W Key U) (t : PodTools W)
    (deployments : Objects W Deployment) (services : Objects W Service)
    (join : List String → String) (fuel : ℕ) where
  -- First every pod of the registry was emptied, then the removal of its deployment, of its service and of the
  -- registry itself was requested, in this order.
  pub record Removed (ref : RegistryRef) (w w' : W) : Type 0 where
    pub registry : Registry
    pub pods : List Pod
    pub found : W
    pub looked : W
    pub emptied : W
    pub undeployed : W
    pub unserved : W
    pub is_found : get_registry c ref w ≡ (ok registry, found)
    pub listed :
        list_pods c t ("registry-" <> sanitized_registry_name registry) ref.namespace found
        ≡ (ok pods, looked)
    pub is_emptied : Each (Emptied t join) pods looked emptied
    pub is_undeployed :
        Requested deployments c.clientset.clock
          ("registry-" <> sanitized_registry_name registry)
          ref.namespace
          emptied
          undeployed
    pub is_unserved :
        Requested services c.clientset.clock
          ("registry-" <> sanitized_registry_name registry)
          ref.namespace
          undeployed
          unserved
    pub is_deleted : Requested c.registries c.clientset.clock ref.name ref.namespace unserved w'

  ran_once :
      {A : Type 0} (m : Io.Io W A) (w : W) (a : A) (w' : W)
      → Gives (once m) w a w'
      → m w ≡ (ok a, w')
  ran_once m w a w' h = ground (arith, h)

  -- If the removal of a registry ends with no error, then first the images in each of its pods were removed, and
  -- after that the API was asked to delete its deployment, its service and the registry, in this order: each request
  -- was taken, or there was no such object. After each request the object was read once, and a pause was
  -- made, whether or not the object was gone.
  pub delete-Removed :
      (ref : RegistryRef) (w w' : W)
      → Gives (delete c t deployments services join fuel ref) w tt w'
      → Removed ref w w'
  unfolding delete delete_objects
  delete-Removed ref w w' h =
      let (registry, w1, h1, r1) = >>=-ok (once (get_registry c ref)) _ w w' tt h in
      let name = "registry-" <> sanitized_registry_name registry in
      let (pods, w2, h2, r2) = >>=-ok (once (list_pods c t name ref.namespace)) _ w1 w' tt r1 in
      let (a, w3, h3, r3) = >>=-ok (once (empty_pods t join pods)) _ w2 w' tt r2 in
      let d1 = Resource.delete deployments c.clientset.clock name ref.namespace fuel in
      let d2 = Resource.delete services c.clientset.clock name ref.namespace fuel in
      let d3 = Resource.delete c.registries c.clientset.clock ref.name ref.namespace fuel in
      let (a', w4, h4, r4) = >>=-ok (annotate _ (text ref.name ∷ []) d1) _ w3 w' tt r3 in
      let (a'', w5, h5, r5) = >>=-ok (annotate _ (text ref.name ∷ []) d2) _ w4 w' tt r4 in
      record {
        registry = registry;
        pods = pods;
        found = w1;
        looked = w2;
        emptied = w3;
        undeployed = w4;
        unserved = w5;
        is_found = ran_once (get_registry c ref) w registry w1 h1;
        listed = ran_once (list_pods c t name ref.namespace) w1 pods w2 h2;
        is_emptied =
            empty_pods-Each t join pods w2 w3 (ran_once (empty_pods t join pods) w2 tt w3 h3);
        is_undeployed =
            delete-Requested deployments c.clientset.clock name ref.namespace fuel w3 w4
              (annotate-ok _ _ d1 w3 w4 tt h4);
        is_unserved =
            delete-Requested services c.clientset.clock name ref.namespace fuel w4 w5
              (annotate-ok _ _ d2 w4 w5 tt h5);
        is_deleted =
            delete-Requested c.registries c.clientset.clock ref.name ref.namespace fuel w5 w'
              (annotate-ok _ _ d3 w5 w' tt r5);
      }
