-- ===== src/Managers/Directory/Laws.antt =====
-- A bundle that was put into a directory is its latest version.
use kube_bundler.Prelude.{String, ◌≡◌, refl, ap, []}
use kube_bundler.Prelude.{ℕ}
use kube_bundler.Go.Io.{ok, bind-ok, lift, annotate, annotate-ok}
use kube_bundler.Managers.Source.{
  BundleFile, Files, DirectorySource, latest_version, metadata_filename,
}
use kube_bundler.Managers.Directory.{
  PublishMetadata, Writer, metadata_of, ensure_folder, copy_bundle, write_metadata, directory_put,
  metadata_path,
}

-- A metadata file that was written is there, and is decoded to the version that was encoded.
abbrev pub ReadsBack : {W : Type 0} → Files W → Writer W → Type 0
ReadsBack {W} files writer =
    (path content : String) (m : PublishMetadata) (w w' : W)
    → writer.marshal m ≡ ok content
    → writer.write_file path content w ≡ (ok tt, w')
    → (f : ℕ) × (u : W) × (v : W) × (files.open_file path w' ≡ (ok f, u))
      × (files.decode_latest f u ≡ (ok m.latest.version, v))

module _ {W : Type 0} (files : Files W) (writer : Writer W) (ds : DirectorySource) where
  -- If a metadata file that was written can be read back, and a bundle was put into a
  -- directory with no error, then a lookup of the latest version of its name in the directory
  -- gives the version of that bundle.
  pub put-latest_version :
      ReadsBack files writer
      → (bundle : BundleFile) (version : String) (w w' : W)
      → directory_put files writer ds bundle w ≡ (ok tt, w')
      → (v : W) × (latest_version files ds (record { name = bundle.ref.name; version = version }) w'
          ≡ (ok bundle.ref.version, v))
  unfolding directory_put write_metadata latest_version metadata_filename metadata_of
  put-latest_version back bundle version w w' e =
      let (_, w1, _, e1) = bind-ok (ensure_folder files writer ds) _ w w' tt e in
      let (_, w2, _, e2) = bind-ok (copy_bundle files writer ds bundle) _ w1 w' tt e1 in
      let encode : String = "couldn't encode metadata json" in
      let writes : String = "couldn't write metadata file" in
      let path = metadata_path files writer ds bundle.ref in
      let marshalled = lift (writer.marshal (metadata_of bundle)) in
      let (b, w3, em, ew) = bind-ok (annotate encode [] marshalled) _ w2 w' tt e2 in
      let em' = annotate-ok encode [] marshalled w2 w3 b em in
      let ew' = annotate-ok writes [] (writer.write_file path b) w3 w' tt ew in
      let (f, u, v, opens, decodes) =
        back path b (metadata_of bundle) w3 w' (ap (λ p. p.0) em') ew' in
      (files.close f v, rw (opens, decodes) refl)
