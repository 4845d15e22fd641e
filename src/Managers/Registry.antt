-- ===== src/Managers/Registry.antt =====
-- managers/registry.go: a registry of images in the cluster, and the proxy in front of it.
pub mod Laws
pub mod Removal
use kube_bundler.Prelude.{◌+◌}
use kube_bundler.Prelude.{
  ℕ, zero, suc, String, ◌<>◌, List, [], ◌∷◌, ◌==◌, eqb, if◌then◌else◌, length,
}
use kube_bundler.Prelude.Dict.{Dict}
use kube_bundler.Prelude.Int.{ℤ}
use kube_bundler.Go.Errors.{errorf, text}
use kube_bundler.Go.Io.{Io, pure, fail, annotate, lift, ◌>>=◌, ◌>>◌}
use kube_bundler.Go.Text.{trim_space}
use kube_bundler.Api.{Flavor}
use kube_bundler.Api.Registry.{Registry, sanitized_registry_name}
use kube_bundler.Cluster.Clients.{Objects}
use kube_bundler.Cluster.Objects.{Pod, Deployment}
use kube_bundler.Managers.Bootstrap.{GcrInfo, gke}
use kube_bundler.Managers.Client.{KbClient, Libraries}
use kube_bundler.Managers.Embedded.{Embedded, each_file}
use kube_bundler.Managers.Install.{default_namespace}
use kube_bundler.Managers.Resource

abbrev pub pod_registry_dir : String
pod_registry_dir = "/var/lib/registry"

abbrev pub docker_dir : String
docker_dir = "docker"

abbrev pub default_host_path_base : String
default_host_path_base = "/var/lib/registry"

abbrev pub image_path : String
image_path = "REGISTRY_URL/PROJECT_ID/IMAGE"

-- The image of the proxy as its file names it.
abbrev pub proxy_image : String
proxy_image = "nginx:1.22.0-alpine-11"

abbrev pub templates_dir : String
templates_dir = "yaml/deployment"

pub record RegistryRef : Type 0 where
  pub name : String
  pub namespace : String

pub record RegistryArgs : Type 0 where
  pub registry_name : String
  pub image : String
  pub replicas : ℤ
  pub node_selector : Dict String
  pub host_path : String

-- The pods with some labels, `retry.Do` with its options, and a command in a pod: the executor, and
-- the stream of its input and output. An executor or an open file is known by a number.
pub record PodTools (W : Type 0) : Type 0 where
  pub pods_matching : Dict String → String → Io W (List Pod)
  pub retry : Io W (Unit {0}) → Io W (Unit {0})
  pub new_executor : Pod → List String → Io W ℕ
  pub stream : ℕ → List ℕ → Io W (Unit {0})  -- with the files that are its input

unfoldable pub count_running : List Pod → ℕ
count_running [] = 0
count_running (p ∷ ps) = (if p.phase == "Running" then 1 else 0) + count_running ps

unfoldable pub registry_args : Registry → Flavor → RegistryArgs
unfolding sanitized_registry_name
registry_args r f = record {
  registry_name = sanitized_registry_name r;
  image = r.spec.image;
  replicas = f.spec.stateful_quorum_replicas;
  node_selector = r.spec.node_selector;
  host_path =
      if trim_space r.spec.host_path == "" then default_host_path_base else r.spec.host_path;
}

module _ {W Key U : Type 0} (c : KbClient W Key U) where
  unfoldable pub get_registry : RegistryRef → Io W Registry
  get_registry ref =
      annotate "couldn't get registry %q" (text ref.name ∷ [])
        (Resource.get c.registries (λ r. r.name) (λ r. r.namespace) ref.name ref.namespace)

  unfoldable pub get_flavor : Registry → Io W Flavor
  get_flavor r =
      annotate "couldn't get flavor %q" (text flavor_name ∷ [])
        (Resource.get c.flavors (λ f. f.name) (λ f. f.namespace) flavor_name default_namespace)
    where
      flavor_name : String
      flavor_name = if r.spec.flavor == "" then "default" else r.spec.flavor

  module _ (t : PodTools W) where
    -- The pods of a deployment, by its name.
    unfoldable pub list_pods : String → String → Io W (List Pod)
    list_pods name namespace = annotate "couldn't list pods of deployment" [] (
        annotate "couldn't list resources in namespace %q" (text namespace ∷ [])
          (t.pods_matching (("name", name) ∷ []) namespace))

    judge_pods : List Pod → Io W (Unit {0})
    unfolding count_running
    judge_pods [] = fail (errorf "pods are not yet up for the deployment" [])
    judge_pods (p ∷ ps) =
        if eqb (count_running (p ∷ ps)) (length (p ∷ ps))
        then pure tt
        else fail (errorf "timeout expired waiting for deployment" [])

    -- The function that is tried again.
    unfoldable pub check_running : String → Io W (Unit {0})
    unfolding list_pods judge_pods
    check_running name = list_pods name default_namespace >>= judge_pods

    unfoldable pub wait_for_running : String → Io W (Unit {0})
    unfolding check_running
    wait_for_running name = t.retry (check_running name)

  module _ (l : Libraries W U) (b : Embedded RegistryArgs U) where
    apply_unstructured : U → Io W (Unit {0})
    apply_unstructured u =
        annotate "couldn't apply yaml" [] (Resource.apply c.unstructured l.name_of (λ u. "") u)

    load_yaml : String → Io W U
    load_yaml yaml = annotate "couldn't read yaml" [] (lift (b.yaml yaml))

    unfoldable pub apply_yaml : String → Io W (Unit {0})
    unfolding load_yaml apply_unstructured
    apply_yaml yaml = load_yaml yaml >>= apply_unstructured

    -- The body of the loop over the templates.
    unfoldable pub apply_template : RegistryArgs → String → Io W (Unit {0})
    unfolding load_yaml apply_unstructured
    apply_template args name = do
      content ←
          annotate "couldn't execute template '%s'" (text name ∷ []) (lift (b.execute name args))
      u ← annotate "couldn't load resource '%s'" (text name ∷ []) (load_yaml content)
      annotate "couldn't apply resource from '%s'" (text name ∷ []) (apply_unstructured u)

    unfoldable pub deploy : PodTools W → RegistryRef → Io W (Unit {0})
    unfolding get_registry get_flavor registry_args each_file apply_template wait_for_running
    deploy t ref = do
      registry ← get_registry ref
      flavor ← get_flavor registry
      annotate "couldn't parse templates" []
          (lift (b.parse_templates (b.join (templates_dir ∷ "*" ∷ []))))
      entries ←
          annotate "couldn't read embedded templates directory" [] (lift (b.read_dir templates_dir))
      each_file (apply_template (registry_args registry flavor)) entries
      wait_for (registry_args registry flavor).registry_name
      where
        wait_for : String → Io W (Unit {0})
        wait_for name =
            annotate "error waiting on registry Deployment resource %q"
              (text ("registry-" <> name) ∷ []) (wait_for_running t ("registry-" <> name))

    -- `buildGCRImageURL`
    unfoldable pub build_gcr_image_url : GcrInfo → String
    build_gcr_image_url info =
        b.replacer
          ("REGISTRY_URL" ∷ info.registry_url ∷ "PROJECT_ID" ∷ info.project_id ∷ "IMAGE"
            ∷ proxy_image ∷ [])
          image_path

    unfoldable pub proxy_config_for : String → String → String
    proxy_config_for port namespace =
        b.replace_all (b.replace_all b.proxy_config "__PORT__" port) "__REGISTRY_NAMESPACE__"
          namespace

    unfoldable pub proxy_daemonset_for : String → String → GcrInfo → String
    unfolding build_gcr_image_url
    proxy_daemonset_for port provider info =
        let daemonset = b.replace_all b.proxy_daemonset "__PORT__" port in
        if provider == gke
        then b.replace_all (b.replace_all daemonset proxy_image (build_gcr_image_url info))
            "imagePullPolicy: Never" ""
        else daemonset

    unfoldable pub deploy_proxy : String → GcrInfo → Io W (Unit {0})
    unfolding apply_yaml proxy_config_for proxy_daemonset_for
    deploy_proxy provider info = do
      annotate "couldn't apply registry nginx proxy configmap" []
          (apply_yaml (proxy_config_for "6000" default_namespace))
      annotate "couldn't apply registry nginx proxy daemonset" []
          (apply_yaml (proxy_daemonset_for "6000" provider info))
