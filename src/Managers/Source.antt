-- ===== src/Managers/Source.antt =====
-- managers/source.go: where bundles are read from.
pub mod Laws
use kube_bundler.Prelude.{
  ℕ, String, ◌<>◌, Bool, true, false, Option, none, some, List, [], ◌∷◌, ◌==◌, if◌then◌else◌, ltb,
  length,
}
use kube_bundler.Prelude.Dict.{Dict}
use kube_bundler.Go.Errors.{
  Error, Kind, leaf, wrapped, errorf, text, is_err_not_found, is_file_not_exist,
}
use kube_bundler.Go.Io.{
  Result, ok, err, panic, Io, pure, fail, crash, annotate, lift, attempt, ◌>>=◌,
}
use kube_bundler.Api.{Application, ProvidesList}

abbrev pub latest : String
latest = "latest"

abbrev pub default_app_file : String
default_app_file = "app.yaml"

abbrev pub err_not_found : Error
err_not_found = leaf Kind.bundle_not_found "bundle not found" []

abbrev pub err_not_implemented : Error
err_not_implemented = leaf Kind.not_implemented "not implemented" []

-- `defer close()` before the call of `m`
abbrev pub deferred : {W A : Type 0} → (W → W) → Io W A → Io W A
deferred close m w = let (r, w') = m w in (r, close w')

pub record BundleRef : Type 0 where
  pub name : String
  pub version : String

unfoldable pub filename : BundleRef → String
filename b = b.name <> ("-" <> (b.version <> ".kb"))

unfoldable pub metadata_filename : BundleRef → String
metadata_filename b = b.name <> ".json"

pub record BundleFile : Type 0 where
  pub ref : BundleRef
  pub contents : ℕ  -- the open file
  pub size : ℕ

-- The methods `Get` and `Put` of the interface `Source`.
pub record Source (W : Type 0) : Type 0 where
  pub get : BundleRef → Io W BundleFile
  pub put : BundleFile → Io W (Unit {0})

-- os, path/filepath, encoding/json, and the decoding of app.yaml out of a zip file.
pub record Files (W : Type 0) : Type 0 where
  pub stat : String → Io W ℕ  -- the size
  pub open_file : String → Io W ℕ
  pub decode_latest : ℕ → Io W String  -- `Latest.Version` of a metadata file
  pub zip_reader : ℕ → ℕ → Io W ℕ  -- of a file and its size
  pub open_entry : ℕ → String → Io W ℕ
  pub decode_app : ℕ → Io W Application
  pub close : ℕ → W → W
  pub join : List String → String
  pub base : String → String

-- `(*BundleFile).Application`, below the decoding
unfoldable pub complete_application : String → Application → Result Application
complete_application namespace app =
    if ltb 1 (length app.spec.provides)
    then err (errorf "bundle '%s' can only provide 1 dependency" (text app.spec.name ∷ []))
    else ok (record app {
      name = app.spec.name <> ("-" <> app.spec.version);
      namespace = namespace;
      spec = record app.spec {
        provides = elim app.spec.provides [
          | [] ↦ record { name = app.spec.name; outputs = [] } ∷ []
          | p ∷ ps ↦ p ∷ ps
        ];
      };
    })

module _ {W : Type 0} (files : Files W) where
  unfoldable pub application : BundleFile → String → Io W Application
  unfolding complete_application
  application bundle namespace = do
    z ← annotate "couldn't open bundle reader" [] (files.zip_reader bundle.contents bundle.size)
    f ←
        annotate "couldn't read bundle application definition" []
          (files.open_entry z default_app_file)
    app ←
        annotate "couldn't decode bundle application definition" []
          (deferred (files.close f) (files.decode_app f))
    lift (complete_application namespace app)

  unfoldable pub new_bundle_from_file : String → Io W BundleFile
  unfolding application
  new_bundle_from_file path = do
    size ← annotate "couldn't stat bundle '%s'" (text path ∷ []) (files.stat path)
    f ← annotate "couldn't open bundle '%s'" (text path ∷ []) (files.open_file path)
    app ← annotate "couldn't open bundle application definition" [] (
        application (record { ref = record { name = ""; version = "" }; contents = f; size = size })
          "default")
    pure (record {
      ref = record { name = app.spec.name; version = app.spec.version };
      contents = f;
      size = size;
    })

pub record DirectorySource : Type 0 where
  pub path : String
  pub section : String
  pub release : String

module _ {W : Type 0} (files : Files W) (ds : DirectorySource) where
  -- What the open of the metadata file is turned into.
  opened : String → Result ℕ → Io W ℕ
  opened path (ok f) = pure f
  opened path (err e) =
      if is_file_not_exist e
      then fail err_not_found
      else fail (wrapped "couldn't open metadata file '%s'" (text path ∷ []) e)
  opened path (panic why) = crash why

  unfoldable pub latest_version : BundleRef → Io W String
  unfolding opened metadata_filename
  latest_version ref = do
    r ← attempt (files.open_file (metadata_path ref))
    f ← opened (metadata_path ref) r
    annotate "couldn't decode metadata file '%s'" (text (metadata_path ref) ∷ [])
        (deferred (files.close f) (files.decode_latest f))
    where
      metadata_path : BundleRef → String
      metadata_path ref =
          files.join (ds.path ∷ ds.section ∷ ds.release ∷ metadata_filename ref ∷ [])

  unfoldable pub directory_get : BundleRef → Io W BundleFile
  unfolding latest_version new_bundle_from_file filename
  directory_get ref = do
    version ← (if ref.version == latest then latest_version ref else pure ref.version)
    new_bundle_from_file files (
        files.join
          (ds.path ∷ ds.section ∷ ds.release ∷ filename (record ref { version = version }) ∷ []))

module _ {W : Type 0} where
  -- The loop of `(*MultiSource).Get`.
  unfoldable pub multi_get : List (Source W) → BundleRef → Io W BundleFile
  multi_get [] ref w = fail err_not_found w
  multi_get (s ∷ sources) ref w =
      let (r, w') = s.get ref w in
      let rest = multi_get sources ref w' in
      elim r [
        | ok bundle ↦ (ok bundle, w')
        | panic why ↦ (panic why, w')
        | err e ↦ if is_err_not_found e then rest else (err e, w')
      ]

  unfoldable pub multi_put : List (Source W) → BundleFile → Io W (Unit {0})
  multi_put sources bundle = fail err_not_implemented

-- The loop of `(*MultiFileSource).Get`.
unfoldable pub multi_file_get : {W : Type 0} → Files W → List String → BundleRef → Io W BundleFile
unfolding new_bundle_from_file filename
multi_file_get files [] ref = fail err_not_found
multi_file_get files (file ∷ rest) ref =
    let further = multi_file_get files rest ref in
    if files.base file == filename ref then new_bundle_from_file files file else further
