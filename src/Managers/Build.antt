-- ===== src/Managers/Build.antt =====
-- managers/build.go: a bundle built from the images of an application, over the Docker client.
pub mod Laws
pub mod Steps
pub mod DeployImage
use kube_bundler.Prelude.{
  ℕ, String, ◌<>◌, Bool, true, false, Option, none, some, List, [], ◌∷◌, ◌++◌, ◌==◌, if◌then◌else◌,
}
use kube_bundler.Prelude.Dict.{Dict, lookup}
use kube_bundler.Go.Errors.{errorf, text}
use kube_bundler.Go.Io.{Io, Result, ok, err, pure, annotate, lift, ◌>>=◌, ◌>>◌, finally}
use kube_bundler.Api.{Application, ImageSpec}
use kube_bundler.Api.Validate.{validate}
use kube_bundler.Managers.Import.{default_images_file}
use kube_bundler.Managers.Source.{default_app_file}

abbrev pub https_scheme : String
https_scheme = "https"

-- The user name and the password of a registry.
pub record AuthConfig : Type 0 where
  pub username : String
  pub password : String

-- The fields of `BuildManager` but for the client and the container of the local registry, which is
-- handed on here.
pub record BuildManager : Type 0 where
  pub auth_configs : Dict AuthConfig
  pub dir : String
  pub app_file : String

pub record Url : Type 0 where
  pub host : String
  pub path : String

-- The Docker client. What is read from is known by a number.
pub record Docker (W : Type 0) : Type 0 where
  pub image_pull : String → String → Io W ℕ  -- an image, and an auth string
  pub image_push : String → Bool → String → Io W ℕ  -- and whether all tags are pushed
  pub image_tag : String → String → Io W (Unit {0})
  pub container_create : String → Io W String
  pub container_start : String → Io W (Unit {0})
  pub container_stop : String → Io W (Unit {0})
  pub container_remove : String → Io W (Unit {0})
  pub copy_from_container : String → String → Io W ℕ

-- os, io, archive/zip, net/url, encoding and path/filepath.
pub record BuildTools (W : Type 0) : Type 0 where
  pub open_file : String → Io W ℕ
  pub decode_app : ℕ → Io W Application
  pub create : String → Io W ℕ
  pub new_zip : ℕ → Io W ℕ
  pub zip_create : ℕ → String → Io W ℕ
  pub copy : ℕ → ℕ → Io W (Unit {0})  -- to the first from the second
  pub print : ℕ → Io W (Unit {0})  -- to the terminal
  pub close : ℕ → Io W (Unit {0})
  pub close_zip : ℕ → Io W (Unit {0})
  pub join : List String → String
  pub parse_url : String → Result Url
  pub marshal_auth : AuthConfig → Result String
  pub base64 : String → String

-- The images of an application, and its deploy image.
unfoldable pub all_images : Application → List ImageSpec
all_images app = app.spec.images ++ (record { image = app.spec.deploy_image; scheme = "" } ∷ [])

unfoldable pub scheme_of : ImageSpec → String
scheme_of i = if i.scheme == "" then https_scheme else i.scheme

unfoldable pub full_image : ImageSpec → String
unfolding scheme_of
full_image i = scheme_of i <> ("://" <> i.image)

-- The credentials of a registry, with the scheme or without it.
unfoldable pub find_auth : Dict AuthConfig → String → String → Bool → Result AuthConfig
find_auth configs scheme host anonymous = elim (lookup (scheme <> ("://" <> host)) configs) [
  | some auth ↦ ok auth
  | none ↦ elim (lookup host configs) [
    | some auth ↦ ok auth
    | none ↦
        if anonymous
        then ok (record { username = ""; password = "" })
        else err (
            errorf "couldn't find auth token for host '%s'" (text (scheme <> ("://" <> host)) ∷ []))
  ]
]

module _ {W : Type 0} (d : Docker W) (t : BuildTools W) (bm : BuildManager) where
  -- Below the open of the file.
  unfoldable pub decode_and_check : ℕ → Io W Application
  decode_and_check f = do
    app ← annotate "couldn't decode app yaml" [] (t.decode_app f)
    annotate "couldn't validate" [] (lift (validate app))
    pure app

  unfoldable pub load_app : Io W Application
  unfolding decode_and_check
  load_app = do
    f ←
        annotate "couldn't open application definition file" []
          (t.open_file (t.join (bm.dir ∷ bm.app_file ∷ [])))
    finally (t.close f) (decode_and_check f)

  unfoldable pub fetch_reg_auth : String → String → Bool → Io W String
  unfolding find_auth
  fetch_reg_auth image scheme anonymous = do
    url ← annotate "couldn't parse docker image URL" [] (lift (t.parse_url image))
    auth ← lift (find_auth bm.auth_configs scheme url.host anonymous)
    json ← annotate "couldn't encode auth config" [] (lift (t.marshal_auth auth))
    pure (t.base64 json)

  -- An error of the close is dropped.
  ignoring : Io W (Unit {0}) → Io W (Unit {0})
  ignoring m w = (ok tt, (m w).1)

  unfoldable pub pull_image : Bool → ImageSpec → Io W (Unit {0})
  unfolding fetch_reg_auth full_image scheme_of ignoring
  pull_image anonymous i = do
    auth ←
        annotate "unable to fetch the registry authString" []
          (fetch_reg_auth (full_image i) (scheme_of i) anonymous)
    reader ← annotate "couldn't pull image %s" (text i.image ∷ []) (d.image_pull i.image auth)
    annotate "couldn't print image pull progress" [] (t.print reader)
    ignoring (t.close reader)

  unfoldable pub pull_images : Bool → List ImageSpec → Io W (Unit {0})
  unfolding pull_image
  pull_images anonymous [] = pure tt
  pull_images anonymous (i ∷ is) = (pull_image anonymous i >> pull_images anonymous is)

  unfoldable pub push_image : ImageSpec → Io W (Unit {0})
  unfolding full_image ignoring
  push_image i = do
    url ← annotate "couldn't parse docker image URL" [] (lift (t.parse_url (full_image i)))
    tag_and_push ("localhost:5000" <> url.path)
    where
      tag_and_push : String → Io W (Unit {0})
      tag_and_push target = do
        annotate "couldn't tag image '%s' for local registry" (text target ∷ [])
            (d.image_tag i.image target)
        reader ←
            annotate "couldn't push image '%s' to local registry" (text target ∷ [])
              (d.image_push target true "123")
        annotate "couldn't print push progress" [] (t.print reader)
        ignoring (t.close reader)

  unfoldable pub push_images : List ImageSpec → Io W (Unit {0})
  unfolding push_image
  push_images [] = pure tt
  push_images (i ∷ is) = (push_image i >> push_images is)

  -- The container that is started, by its id.
  unfoldable pub launch_local_registry : String → Io W String
  launch_local_registry image = do
    id ← annotate "couldn't launch kb registry" [] (d.container_create image)
    annotate "couldn't start kb registry" [] (d.container_start id)
    pure id

  unfoldable pub stop_local_registry : String → Io W (Unit {0})
  stop_local_registry id = do
    annotate "couldn't stop local registry container" [] (d.container_stop id)
    annotate "couldn't remove local registry container" [] (d.container_remove id)

  unfoldable pub copy_images : String → Io W ℕ
  copy_images id =
      annotate "couldn't copy docker layers from local registry" []
        (d.copy_from_container id "/var/lib/registry/docker")

  -- Below the open of the application's file.
  unfoldable pub copy_both : ℕ → ℕ → ℕ → ℕ → Io W (Unit {0})
  copy_both zip images app_entry source = do
    annotate "couldn't copy from application definition to bundle" [] (t.copy app_entry source)
    images_entry ← annotate "couldn't open images file" [] (t.zip_create zip default_images_file)
    annotate "couldn't copy from images file to bundle" [] (t.copy images_entry images)

  -- The contents of the bundle, in an open zip file.
  unfoldable pub fill_zip : ℕ → ℕ → Io W (Unit {0})
  unfolding copy_both
  fill_zip zip images = do
    app_entry ←
        annotate "couldn't create application definition inside bundle" []
          (t.zip_create zip default_app_file)
    source ←
        annotate "couldn't open application definition file" []
          (t.open_file (t.join (bm.dir ∷ bm.app_file ∷ [])))
    finally (t.close source) (copy_both zip images app_entry source)

  -- The zip file is closed before the file that it stands in.
  unfoldable pub create_kb_file : Application → ℕ → Io W (Unit {0})
  unfolding fill_zip
  create_kb_file app images = do
    file ←
        annotate "couldn't create bundle" [] (
          t.create (t.join (bm.dir ∷ (app.spec.name <> ("-" <> (app.spec.version <> ".kb"))) ∷ [])))
    finally (t.close file)
        (t.new_zip file >>= λ zip. finally (t.close_zip zip) (fill_zip zip images))

  -- What `Build` does while the local registry runs.
  unfoldable pub build_with : Bool → Application → String → Io W (Unit {0})
  unfolding pull_images push_images copy_images create_kb_file all_images
  build_with anonymous app id = do
    annotate "couldn't pull bundle images" [] (pull_images anonymous (all_images app))
    annotate "couldn't push bundle images" [] (push_images (all_images app))
    tar ← annotate "couldn't copy bundle images" [] (copy_images id)
    finally (t.close tar) (annotate "couldn't create bundle" [] (create_kb_file app tar))

  -- An error of the stop is logged.
  unfoldable pub build : String → Bool → Io W (Unit {0})
  unfolding load_app launch_local_registry stop_local_registry build_with
  build registry_image anonymous = do
    app ← annotate "couldn't create bundle" [] load_app
    id ← annotate "couldn't launch local registry" [] (launch_local_registry registry_image)
    finally (stop_local_registry id) (build_with anonymous app id)
