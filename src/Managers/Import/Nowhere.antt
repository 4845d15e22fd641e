-- ===== src/Managers/Import/Nowhere.antt =====
-- An import to a host on which no pod of the registry runs.
use kube_bundler.Prelude.{◌≡◌, ◌≢◌, refl, ℕ, String, ◌<>◌, List, [], ◌∷◌, All, arith}
use kube_bundler.Go.Io.{Io, ok}
use kube_bundler.Go.Run.{Gives}
use kube_bundler.Api.Registry.{Registry, sanitized_registry_name}
use kube_bundler.Cluster.Objects.{Pod}
use kube_bundler.Managers.Client.{KbClient}
use kube_bundler.Managers.Extract.{TarTools}
use kube_bundler.Managers.Registry.{RegistryRef, PodTools, get_registry, list_pods}
use kube_bundler.Managers.Source.{BundleRef, Source, Files}
use kube_bundler.Managers.Import.{first_on_host, choose_pods, import_to_pods, import}

module _ {W Key U : Type 0} (c : KbClient W Key U) (t : PodTools W) (tar : TarTools W)
    (files : Files W) (entry_size : ℕ → Io W ℕ) (fuel : ℕ) where
  first_on_host-none :
      (host : String) (pods : List Pod)
      → All (λ p. p.host_ip ≢ host) pods
      → first_on_host host pods ≡ []
  unfolding first_on_host
  first_on_host-none host [] h = refl
  first_on_host-none host (p ∷ ps) h = ground (arith, h.0, first_on_host-none host ps h.1)

  -- An import to a host on which no pod of the registry runs ends with no error as soon as the pods are
  -- listed, and imports nothing.
  pub import-nowhere :
      (ref : RegistryRef) (source : Source W) (bundles : List BundleRef) (dest_dir host : String)
      (registry : Registry) (pods : List Pod) (w u v : W)
      → host ≢ ""
      → All (λ p. p.host_ip ≢ host) pods
      → get_registry c ref w ≡ (ok registry, u)
      → list_pods c t ("registry-" <> sanitized_registry_name registry) ref.namespace u
        ≡ (ok pods, v)
      → Gives (import c t tar files entry_size fuel ref source bundles dest_dir host) w tt v
  unfolding import choose_pods import_to_pods
  import-nowhere ref source bundles dest_dir host registry pods w u v named elsewhere found listed =
      let none_chosen = first_on_host-none host pods elsewhere in
      let chosen : choose_pods host pods ≡ [] = ground (arith, named, none_chosen) in
      rw (found, listed, chosen) refl
