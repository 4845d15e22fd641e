-- ===== src/Managers/Import.antt =====
-- managers/registry.go: the import of the images of bundles into a registry.
pub mod Chosen
pub mod Laws
pub mod Nowhere
use kube_bundler.Prelude.{
  ℕ, String, ◌<>◌, Bool, true, false, Option, none, some, List, [], ◌∷◌, ◌==◌, eqb, if◌then◌else◌,
}
use kube_bundler.Go.Errors.{Error, text, wrapped, wraps_not_exist}
use kube_bundler.Go.Io
use kube_bundler.Go.Io.{Io, Result, ok, err, panic}
use kube_bundler.Go.Run.{Run, once, annotate, attempt, ◌>>=◌, ◌>>◌}
use kube_bundler.Api.{SourceInfo}
use kube_bundler.Api.Registry.{Registry, sanitized_registry_name}
use kube_bundler.Cluster.Objects.{Pod}
use kube_bundler.Managers.Client.{KbClient}
use kube_bundler.Managers.Directory.{Writer}
use kube_bundler.Managers.Extract.{TarTools, extract}
use kube_bundler.Managers.Manifest.{ManifestReference}
use kube_bundler.Managers.ManifestInstall.{bundle_refs}
use kube_bundler.Managers.Resource
use kube_bundler.Managers.Registry.{
  RegistryRef, PodTools, pod_registry_dir, get_registry, list_pods,
}
use kube_bundler.Managers.Registry.Removal.{run_in_pod}
use kube_bundler.Managers.S3.{Aws, new_source}
use kube_bundler.Managers.Source.{BundleRef, Source, Files, multi_get, multi_put}

abbrev pub default_images_file : String
default_images_file = "images.tar"

-- The first pod on the host, or all pods if no host is named.
unfoldable pub first_on_host : String → List Pod → List Pod
first_on_host host [] = []
first_on_host host (p ∷ ps) =
    let rest = first_on_host host ps in if p.host_ip == host then p ∷ [] else rest

unfoldable pub choose_pods : String → List Pod → List Pod
unfolding first_on_host
choose_pods host pods = if host == "" then pods else first_on_host host pods

module _ {W Key U : Type 0} (c : KbClient W Key U) (t : PodTools W) (tar : TarTools W)
    (files : Files W) (entry_size : ℕ → Io W ℕ) (fuel : ℕ) where
  -- `extractTarToPod`
  unfoldable pub extract_to_pod : Pod → String → ℕ → Io W (Unit {0})
  unfolding run_in_pod
  extract_to_pod pod dir archive =
      run_in_pod t pod ("tar x -C " <> (dir <> " -f -")) (archive ∷ [])
        "couldn't extract files to '%s'" dir

  -- The two ways to copy the images.
  unfoldable pub copy_images : Pod → RegistryRef → String → ℕ → Run W (Unit {0})
  unfolding extract extract_to_pod
  copy_images pod ref dest_dir archive =
      if dest_dir == ""
      then once (extract_to_pod pod pod_registry_dir archive)
      else extract tar archive fuel (files.join (dest_dir ∷ ref.name ∷ []))

  -- The archive is closed whether the copy fails or not.
  closed_after : ℕ → Option (Result (Unit {0}) × W) → Option (Result (Unit {0}) × W)
  closed_after archive none = none
  closed_after archive (some (ok _, w)) = some (ok tt, files.close archive w)
  closed_after archive (some (err e, w)) = some (err e, files.close archive w)
  closed_after archive (some (panic why, w)) = some (panic why, w)

  unfoldable pub import_archive : Pod → RegistryRef → String → BundleRef → ℕ → Run W (Unit {0})
  unfolding copy_images closed_after
  import_archive pod ref dest_dir bundle archive = do
    size ← once (
        Io.annotate "couldn't stat images.tar from bundle file '%s'" (text bundle.name ∷ [])
          (entry_size archive))
    if eqb size 0
        then once (λ w. (ok tt, files.close archive w))
        else annotate "couldn't copy images.tar to registry for bundle file '%s'"
            (text bundle.name ∷ [])
            (λ w. closed_after archive (copy_images pod ref dest_dir archive w))

  -- What follows the attempt to open the images. A bundle without images is passed over.
  opened : Pod → RegistryRef → String → BundleRef → Result ℕ → Run W (Unit {0})
  unfolding import_archive
  opened pod ref dest_dir bundle (ok archive) = import_archive pod ref dest_dir bundle archive
  opened pod ref dest_dir bundle (err e) =
      if wraps_not_exist e
      then once (Io.pure tt)
      else once (
          Io.fail
            (wrapped "couldn't open images.tar from bundle file '%s'" (text bundle.name ∷ []) e))
  opened pod ref dest_dir bundle (panic why) = once (Io.crash why)

  unfoldable pub import_bundle :
      Pod → RegistryRef → Source W → String → BundleRef → Run W (Unit {0})
  unfolding opened
  import_bundle pod ref source dest_dir bundle = do
    file ← once (
        Io.annotate "couldn't get bundle file '%s' from source" (text bundle.name ∷ [])
          (source.get bundle))
    z ← once (
        Io.annotate "couldn't open zip reader to bundle file '%s'" (text bundle.name ∷ [])
          (files.zip_reader file.contents file.size))
    r ← once (Io.attempt (files.open_entry z default_images_file))
    opened pod ref dest_dir bundle r

  unfoldable pub import_to_pod :
      Pod → RegistryRef → Source W → String → List BundleRef → Run W (Unit {0})
  unfolding import_bundle
  import_to_pod pod ref source dest_dir [] = once (Io.pure tt)
  import_to_pod pod ref source dest_dir (bundle ∷ bundles) =
      import_bundle pod ref source dest_dir bundle >> import_to_pod pod ref source dest_dir bundles

  unfoldable pub import_to_pods :
      List Pod → RegistryRef → Source W → List BundleRef → String → Run W (Unit {0})
  unfolding import_to_pod
  import_to_pods [] ref source bundles dest_dir = once (Io.pure tt)
  import_to_pods (pod ∷ pods) ref source bundles dest_dir =
      annotate "couldn't import images to pod %s" (text pod.name ∷ [])
        (import_to_pod pod ref source dest_dir bundles)
      >> import_to_pods pods ref source bundles dest_dir

  -- `Import`
  unfoldable pub import :
      RegistryRef → Source W → List BundleRef → String → String → Run W (Unit {0})
  unfolding get_registry list_pods choose_pods import_to_pods sanitized_registry_name
  import ref source bundles dest_dir host = do
    registry ← once (get_registry c ref)
    pods ← once (list_pods c t ("registry-" <> sanitized_registry_name registry) ref.namespace)
    import_to_pods (choose_pods host pods) ref source bundles dest_dir

  module _ (writer : Writer W) (aws : Aws W) where
    unfoldable pub import_sources : String → List SourceInfo → Io W (List (Source W))
    unfolding new_source
    import_sources namespace [] = Io.pure []
    import_sources namespace (i ∷ is) =
        Io.◌>>=◌
          (Io.annotate "couldn't get source '%s'" (text i.name ∷ [])
            (Resource.get c.sources (λ s. s.name) (λ s. s.namespace) i.name namespace))
          (λ src.
            Io.◌>>=◌
              (Io.annotate "couldn't create new source" []
                (Io.lift (new_source files writer aws src.spec i.section i.release)))
              (λ source. Io.◌>>=◌ (import_sources namespace is) (λ rest. Io.pure (source ∷ rest))))

    -- `ImportManifest`
    unfoldable pub import_manifest : ManifestReference → String → String → Run W (Unit {0})
    unfolding import_sources import multi_get multi_put bundle_refs
    import_manifest ref dest_dir host = do
      manifest ← once (
          Io.annotate "couldn't get manifest %q" (text ref.name ∷ [])
            (Resource.get c.manifests (λ m. m.name) (λ m. m.namespace) ref.name ref.namespace))
      sources ← once (import_sources ref.namespace manifest.spec.sources)
      annotate "couldn't import bundles from manifest" [] (
          import (record { name = manifest.spec.registry; namespace = ref.namespace })
            (record { get = multi_get sources; put = multi_put sources })
            (bundle_refs manifest.spec.bundles) dest_dir host)
