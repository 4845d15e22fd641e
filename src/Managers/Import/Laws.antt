-- ===== src/Managers/Import/Laws.antt =====
-- What an import that ended with no error did.
use kube_bundler.Prelude.{◌≡◌, ℕ, String, true, ◌⊎◌}
use kube_bundler.Managers.Import.Chosen.{Chosen}
use kube_bundler.Go.Each.{Each}
use kube_bundler.Go.Errors.{Error, wraps_not_exist}
use kube_bundler.Go.Io
use kube_bundler.Go.Io.{Io, Result, ok, err, Result-cases}
use kube_bundler.Go.Run.{Run, Gives}
use kube_bundler.Api.Registry.{Registry}
use kube_bundler.Cluster.Objects.{Pod}
use kube_bundler.Managers.Client.{KbClient}
use kube_bundler.Managers.Extract.{TarTools}
use kube_bundler.Managers.Registry.{RegistryRef, PodTools}
use kube_bundler.Managers.Source.{BundleRef, BundleFile, Source, Files}
use kube_bundler.Managers.Import.{default_images_file, copy_images}

module _ {W Key U : Type 0} (c : KbClient W Key U) (t : PodTools W) (tar : TarTools W)
    (files : Files W) (entry_size : ℕ → Io W ℕ) (fuel : ℕ) where
  -- The bundle was read, and it has no images, or an empty archive of them, or the archive was
  -- copied to its end.
  pub record Imported (pod : Pod) (ref : RegistryRef) (source : Source W) (dest_dir : String)
      (bundle : BundleRef) (w w' : W) : Type 0 where
    pub file : BundleFile
    pub zip : ℕ
    pub got : W
    pub unzipped : W
    pub images : Result ℕ
    pub looked : W
    pub is_got : source.get bundle w ≡ (ok file, got)
    pub is_unzipped : files.zip_reader file.contents file.size got ≡ (ok zip, unzipped)
    pub is_looked : files.open_entry zip default_images_file unzipped ≡ (images, looked)
    pub is_imported :
        ((e : Error) × (images ≡ err e) × (wraps_not_exist e ≡ true) × (looked ≡ w'))
        ⊎ ((archive : ℕ) × (size : ℕ) × (u : W) × (v : W) × (images ≡ ok archive)
            × (entry_size archive looked ≡ (ok size, u))
            × ((size ≡ 0) × (u ≡ v)
                ⊎ Gives (copy_images c t tar files entry_size fuel pod ref dest_dir archive) u tt v)
            × (w' ≡ files.close archive v))
