-- ===== src/Managers/Transfer.antt =====
-- managers/publish.go and managers/copy.go: bundles put from files, and from one source to another.
use kube_bundler.Prelude.{String, List, [], ◌∷◌}
use kube_bundler.Go.Errors.{text}
use kube_bundler.Go.Io.{Io, pure, annotate, attempt, ◌>>=◌, ◌>>◌}
use kube_bundler.Managers.Source.{BundleRef, BundleFile, Files, Source, new_bundle_from_file}

module _ {W : Type 0} (files : Files W) where
  abbrev close_bundle : BundleFile → Io W (Unit {0})
  close_bundle bundle w = pure tt (files.close bundle.contents w)

  -- `Publish`. An error of the close is printed.
  unfoldable pub publish : Source W → List String → Io W (Unit {0})
  unfolding new_bundle_from_file
  publish source [] = pure tt
  publish source (filename ∷ filenames) = do
    bundle ←
        annotate "couldn't open bundle '%s'" (text filename ∷ [])
          (new_bundle_from_file files filename)
    annotate "couldn't publish bundle '%s'" (text filename ∷ []) (source.put bundle)
    close_bundle bundle
    publish source filenames

  -- `Copy`. An error of the put is printed, and the next bundle is copied.
  unfoldable pub copy : Source W → Source W → List BundleRef → Io W (Unit {0})
  copy from destination [] = pure tt
  copy from destination (ref ∷ refs) = do
    bundle ← annotate "couldn't get bundle '%s'" (text ref.name ∷ []) (from.get ref)
    printed ← attempt (destination.put bundle)
    close_bundle bundle
    copy from destination refs
