-- ===== src/Managers/S3.antt =====
-- managers/source.go: the source in an S3 bucket, and the choice of a source by its type.
use kube_bundler.Prelude.{ℕ, String, ◌<>◌, List, [], ◌∷◌, ◌==◌, if◌then◌else◌}
use kube_bundler.Prelude.Dict.{Dict, lookup_or}
use kube_bundler.Go.Errors.{Error, wrapped, errorf, text}
use kube_bundler.Go.Io.{
  Result, ok, err, panic, Io, pure, fail, crash, annotate, lift, attempt, ◌>>=◌, ◌>>◌,
}
use kube_bundler.Api.{SourceSpec}
use kube_bundler.Managers.Source.{
  BundleRef, BundleFile, Files, Source, DirectorySource, filename, metadata_filename, latest,
  err_not_found, new_bundle_from_file, directory_get,
}
use kube_bundler.Managers.Directory.{Writer, metadata_of, directory_put}

pub record S3Source : Type 0 where
  pub path : String
  pub options : Dict String
  pub section : String
  pub release : String

-- github.com/aws/aws-sdk-go, with a session for a region: the first three texts are the region, the
-- bucket and the key. `code` is the code of an AWS error, and "" of another error.
pub record Aws (W : Type 0) : Type 0 where
  pub get_object : String → String → String → Io W ℕ
  pub decode_latest : ℕ → Io W String  -- and the rest of the body is read
  pub download : String → String → String → ℕ → Io W (Unit {0})
  pub upload_section : String → String → String → ℕ → ℕ → Io W (Unit {0})
  pub upload_text : String → String → String → String → Io W (Unit {0})
  pub join : List String → String  -- `path.Join`
  pub code : Error → String
  pub create_temp : String → Io W ℕ
  pub temp_name : ℕ → String

module _ {W : Type 0} (files : Files W) (writer : Writer W) (aws : Aws W) (s : S3Source) where
  abbrev pub bucket : String
  bucket = lookup_or "" "bucket" s.options

  abbrev pub region : String
  region = lookup_or "" "region" s.options

  abbrev pub key_of : String → String
  key_of name = aws.join (s.path ∷ s.section ∷ s.release ∷ name ∷ [])

  unfoldable pub check_options : Io W (Unit {0})
  check_options =
      if bucket == ""
      then fail (errorf "missing bucket" [])
      else if region == ""
      then fail (errorf "missing region" [])
      else pure tt

  -- An error of that code means that the source does not have the bundle.
  unfoldable pub unless_missing : {A : Type 0} → String → Error → (Error → Error) → Io W A
  unless_missing missing e explain =
      if aws.code e == missing then fail err_not_found else fail (explain e)

  got_metadata : String → Result ℕ → Io W ℕ
  unfolding unless_missing
  got_metadata key (ok body) = pure body
  got_metadata key (err e) = unless_missing "NoSuchKey" e (
      wrapped "couldn't download metadata file 's3://%s'"
        (text (aws.join (bucket ∷ key ∷ [])) ∷ []))
  got_metadata key (panic why) = crash why

  unfoldable pub s3_latest_version : BundleRef → Io W String
  unfolding got_metadata metadata_filename
  s3_latest_version ref = do
    r ← attempt (aws.get_object region bucket (key_of (metadata_filename ref)))
    body ← got_metadata (key_of (metadata_filename ref)) r
    annotate "couldn't decode metadata file 's3://%s'"
        (text (aws.join (bucket ∷ key_of (metadata_filename ref) ∷ [])) ∷ [])
        (aws.decode_latest body)

  downloaded : String → Result (Unit {0}) → Io W (Unit {0})
  unfolding unless_missing
  downloaded key (ok _) = pure tt
  downloaded key (err e) =
      unless_missing "NotFound" e
        (wrapped "couldn't download s3://%s" (text (aws.join (bucket ∷ key ∷ [])) ∷ []))
  downloaded key (panic why) = crash why

  unfoldable pub s3_download : BundleRef → Io W BundleFile
  unfolding downloaded filename new_bundle_from_file
  s3_download ref = do
    f ← annotate "couldn't create temp file" [] (aws.create_temp (filename ref <> ".*.kb"))
    r ← attempt (aws.download region bucket (key_of (filename ref)) f)
    downloaded (key_of (filename ref)) r
    annotate "couldn't close bundle file" [] (writer.close f)
    new_bundle_from_file files (aws.temp_name f)

  unfoldable pub s3_get : BundleRef → Io W BundleFile
  unfolding check_options s3_latest_version s3_download
  s3_get ref = do
    check_options
    version ← (if ref.version == latest then s3_latest_version ref else pure ref.version)
    s3_download (record ref { version = version })

  unfoldable pub s3_put : BundleFile → Io W (Unit {0})
  unfolding check_options filename metadata_of metadata_filename
  s3_put bundle = do
    check_options
    annotate "couldn't upload to s3" [] (
        aws.upload_section region bucket (key_of (filename bundle.ref)) bundle.contents bundle.size)
    b ← annotate "couldn't encode metadata json" [] (lift (writer.marshal (metadata_of bundle)))
    annotate "couldn't upload bundle metadata to s3" []
        (aws.upload_text region bucket (key_of (metadata_filename bundle.ref)) b)

module _ {W : Type 0} (files : Files W) (writer : Writer W) (aws : Aws W) where
  -- `NewSource`
  unfoldable pub new_source : SourceSpec → String → String → Result (Source W)
  unfolding directory_get directory_put s3_get s3_put
  new_source spec section release =
      if spec.type == "directory"
      then ok (directory_source (record { path = spec.path; section = section; release = release }))
      else if spec.type == "s3"
      then ok (
          s3_source (record {
            path = spec.path;
            options = spec.options;
            section = section;
            release = release;
          }))
      else err (errorf "unrecognized source: %s" (text spec.type ∷ []))
    where
      directory_source : DirectorySource → Source W
      directory_source ds = record {
        get = directory_get files ds;
        put = directory_put files writer ds;
      }

      s3_source : S3Source → Source W
      s3_source s = record { get = s3_get files writer aws s; put = s3_put files writer aws s }
