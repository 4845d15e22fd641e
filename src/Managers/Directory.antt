-- ===== src/Managers/Directory.antt =====
-- managers/source.go: how a bundle is put into a directory, with the file that names its latest
-- version.
pub mod Laws
use kube_bundler.Prelude.{ℕ, String, ◌<>◌, List, [], ◌∷◌, ◌≡◌, if◌then◌else◌}
use kube_bundler.Prelude.Int.{ℤ}
use kube_bundler.Go.Decimal.{decimal}
use kube_bundler.Go.Errors.{Error, wrapped, text, is_file_not_exist}
use kube_bundler.Go.Io.{
  Result, ok, err, panic, Io, pure, crash, annotate, lift, attempt, ◌>>=◌, ◌>>◌,
}
use kube_bundler.Managers.Source.{
  BundleRef, BundleFile, Files, DirectorySource, filename, metadata_filename,
}

pub record ReleaseMetadata : Type 0 where
  pub version : String
  pub size : String

pub record PublishMetadata : Type 0 where
  pub latest : ReleaseMetadata

unfoldable pub metadata_of : BundleFile → PublishMetadata
metadata_of bundle = record {
  latest = record { version = bundle.ref.version; size = decimal (ℤ.pos bundle.size) };
}

-- os, io and encoding/json where they write. A created file is known by a number.
pub record Writer (W : Type 0) : Type 0 where
  pub mkdir_all : String → W → W  -- the error is not looked at
  pub create : String → Io W ℕ
  pub copy_section : ℕ → ℕ → ℕ → Io W (Unit {0})  -- to, from, and how many bytes
  pub close : ℕ → Io W (Unit {0})
  pub marshal : PublishMetadata → Result String
  pub write_file : String → String → Io W (Unit {0})

module _ {W : Type 0} (files : Files W) (writer : Writer W) (ds : DirectorySource) where
  abbrev pub folder : String
  folder = files.join (ds.path ∷ ds.section ∷ ds.release ∷ [])

  abbrev pub metadata_path : BundleRef → String
  metadata_path ref = files.join (ds.path ∷ ds.section ∷ ds.release ∷ metadata_filename ref ∷ [])

  -- What follows `os.Stat`.
  make_missing : Result ℕ → Io W (Unit {0})
  make_missing (ok size) w = (ok tt, w)
  make_missing (err e) w = (ok tt, if is_file_not_exist e then writer.mkdir_all folder w else w)
  make_missing (panic why) w = (panic why, w)

  unfoldable pub ensure_folder : Io W (Unit {0})
  unfolding make_missing
  ensure_folder = do r ← attempt (files.stat folder); make_missing r

  unfoldable pub copy_bundle : BundleFile → Io W (Unit {0})
  unfolding filename
  copy_bundle bundle = do
    f ←
        annotate "couldn't open path '%s' for writing"
          (text (files.join (folder ∷ filename bundle.ref ∷ [])) ∷ [])
          (writer.create (files.join (folder ∷ filename bundle.ref ∷ [])))
    annotate "couldn't copy file content" [] (writer.copy_section f bundle.contents bundle.size)
    annotate "couldn't close bundle" [] (writer.close f)

  unfoldable pub write_metadata : BundleFile → Io W (Unit {0})
  unfolding metadata_of metadata_filename
  write_metadata bundle = do
    b ← annotate "couldn't encode metadata json" [] (lift (writer.marshal (metadata_of bundle)))
    annotate "couldn't write metadata file" [] (writer.write_file (metadata_path bundle.ref) b)

  unfoldable pub directory_put : BundleFile → Io W (Unit {0})
  unfolding ensure_folder copy_bundle write_metadata
  directory_put bundle = do ensure_folder; copy_bundle bundle; write_metadata bundle
