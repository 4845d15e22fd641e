-- ===== src/Tests/Builds.antt =====
-- A build in which every call succeeds. The world counts the calls of the Docker client.
use kube_bundler.Prelude.{refl, ℕ, suc, false, [], ◌∷◌, String-discrete}
use kube_bundler.Go.Io.{Io, ok}
use kube_bundler.Go.Text
use kube_bundler.Api.Validate
use kube_bundler.Managers.Build.{BuildManager, BuildTools, Docker, build}
use kube_bundler.Managers.Build.Laws.{Built, build-Built}
use kube_bundler.Prelude.Dict.{lookup}
use kube_bundler.Tests.Client.{application}

abbrev called : {A : Type 0} → A → Io ℕ A
called a w = (ok a, suc w)

abbrev docker : Docker ℕ
docker = record {
  image_pull = λ image auth. called 1;
  image_push = λ image all auth. called 2;
  image_tag = λ image target. called tt;
  container_create = λ image. called "c1";
  container_start = λ id. called tt;
  container_stop = λ id. called tt;
  container_remove = λ id. called tt;
  copy_from_container = λ id path. called 3;
}

abbrev tools : BuildTools ℕ
tools = record {
  open_file = λ path w. (ok 4, w);
  decode_app = λ f w. (ok (application [] "web"), w);
  create = λ path w. (ok 5, w);
  new_zip = λ f w. (ok 6, w);
  zip_create = λ z name w. (ok 7, w);
  copy = λ to from w. (ok tt, w);
  print = λ f w. (ok tt, w);
  close = λ f w. (ok tt, w);
  close_zip = λ z w. (ok tt, w);
  join = λ parts. "/app";
  parse_url = λ s. ok (record { host = "registry"; path = "/web" });
  marshal_auth = λ a. ok "{}";
  base64 = λ s. s;
}

abbrev manager : BuildManager
manager = record {
  auth_configs = ("registry", record { username = "u"; password = "p" }) ∷ [];
  dir = "/app";
  app_file = "app.yaml";
}

build-Built_example : Built docker tools manager "registry:2" false 0 8
unfolding build Validate.validate Text.trim_space lookup String-discrete
build-Built_example = build-Built docker tools manager "registry:2" false 0 8 refl
