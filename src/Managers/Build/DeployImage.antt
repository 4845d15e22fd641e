-- ===== src/Managers/Build/DeployImage.antt =====
-- managers/build.go: the deploy image, built from a directory and pushed to its registry.

use kube_bundler.Prelude.{
  ℕ, String, ◌<>◌, Bool, true, false, Option, none, some, List, [], ◌∷◌, ◌==◌, if◌then◌else◌,
}
use kube_bundler.Prelude.Dict.{Dict}
use kube_bundler.Go.Errors.{Error, errorf, text}
use kube_bundler.Go.Io.{Io, ok, pure, fail, annotate, ◌>>=◌, ◌>>◌, finally}
use kube_bundler.Managers.Build.{
  AuthConfig, BuildManager, Docker, BuildTools, https_scheme, load_app, fetch_reg_auth,
}

-- `types.ImageBuildOptions`, with the fields that are set.
pub record BuildOptions : Type 0 where
  pub dockerfile : String
  pub tags : List String
  pub remove : Bool
  pub build_args : Dict (Option String)
  pub auth_configs : Dict AuthConfig

-- The parts of the Docker client and of the standard library that only this file needs.
pub record ImageTools (W : Type 0) : Type 0 where
  pub tar_with_options : String → Io W ℕ
  pub image_build : ℕ → BuildOptions → Io W ℕ
  -- the lines up to the end of the text, or to an error
  pub scan_lines : ℕ → W → (List String × Option Error) × W
  pub error_line : String → String  -- the field `error` of the JSON text, or "" if there is none

-- The last of the lines, or "" if there is none.
unfoldable pub last_line : String → List String → String
last_line line [] = line
last_line line (l ∷ ls) = last_line l ls

module _ {W : Type 0} (it : ImageTools W) where
  judge_logs : List String × Option Error → Io W (Unit {0})
  unfolding last_line
  judge_logs (lines, e) =
      if it.error_line (last_line "" lines) == "" then no_error_line else fail reported
    where
      no_error_line : Io W (Unit {0})
      no_error_line = elim e [ none ↦ pure tt | some x ↦ fail x ]

      reported : Error
      reported = errorf "%s" (text (it.error_line (last_line "" lines)) ∷ [])

  unfoldable pub print_logs : ℕ → Io W (Unit {0})
  unfolding judge_logs
  print_logs reader w = let (scanned, w') = it.scan_lines reader w in judge_logs scanned w'

  module _ (d : Docker W) (t : BuildTools W) (bm : BuildManager) where
    unfoldable pub build_deploy_image : String → Dict (Option String) → Io W (Unit {0})
    unfolding print_logs
    build_deploy_image dir build_args = do
      app ← annotate "couldn't build deploy image" [] (load_app d t bm)
      tar ← it.tar_with_options dir
      body ← it.image_build tar (record {
        dockerfile = "Dockerfile";
        tags = app.spec.deploy_image ∷ [];
        remove = true;
        build_args = build_args;
        auth_configs = bm.auth_configs;
      })
      finally (t.close body) (print_logs body)

    unfoldable pub upload_deploy_image : Io W (Unit {0})
    upload_deploy_image = do
      app ← annotate "couldn't upload deploy image" [] (load_app d t bm)
      auth ← annotate "unable to fetch the registry authString" [] (
          fetch_reg_auth d t bm (https_scheme <> ("://" <> app.spec.deploy_image)) https_scheme
            false)
      reader ←
          annotate "couldn't push image '%s' to registry" (text app.spec.deploy_image ∷ [])
            (d.image_push app.spec.deploy_image false auth)
      annotate "couldn't print push progress" [] (t.print reader)
      (λ w. (ok tt, (t.close reader w).1))
