-- ===== src/Tests/Installs.antt =====
-- Installs in that cluster, and a directory whose world is the one file that was written last.
use kube_bundler.Prelude.{arith, String-discrete}
use kube_bundler.Prelude.{◌≡◌, refl, sym, ap, ◌∙◌, String, true, [], ◌∷◌}
use kube_bundler.Go.Errors.{Error, Kind, leaf}
use kube_bundler.Go.Io.{ok, err}
use kube_bundler.Managers.Directory.{Writer, directory_put}
use kube_bundler.Managers.Directory.Laws.{ReadsBack, put-latest_version}
use kube_bundler.Managers.Install.{Request, requested}
use kube_bundler.Managers.Install.Laws.{install_twice}
use kube_bundler.Managers.Install
use kube_bundler.Managers.Resource
use kube_bundler.Managers.Source.{BundleFile, DirectorySource, Files, latest, latest_version}
use kube_bundler.Tests.Client.{client, libraries, install}
use kube_bundler.Api.{no_secret}
use kube_bundler.Tests.World.{world}

abbrev request : Request
request = record {
  app_name = "web";
  name = "";
  namespace = "default";
  version = "1.0";
  suffix = "";
  flavor = "small";
  docker_registry = "";
  force = true;
  parameters = [];
}

-- The same install again, with other parameters.
abbrev second : Request
second = record request {
  parameters = record { name = "size"; value = "2"; generate_secret = no_secret } ∷ [];
}

install_twice_example : (install "web").spec.parameters ≡ []
unfolding Install.install Resource.get Resource.list Resource.apply String-discrete
install_twice_example =
    install_twice (client world) libraries (λ w. Unit) request second (install "web")
      (install "web") 0 0 0 (λ u u' e. tt) (λ u u' h e. tt) (λ existing u u' h e. ground (arith, e))
      refl refl

abbrev missing : Error
missing = leaf Kind.file_not_exist "no such file" []

abbrev files : Files String
files = record {
  stat = λ path w. (err missing, w);
  open_file = λ path w. (ok 1, w);
  decode_latest = λ f w. (ok w, w);
  zip_reader = λ f size w. (err missing, w);
  open_entry = λ z name w. (err missing, w);
  decode_app = λ f w. (err missing, w);
  close = λ f w. w;
  join = λ parts. "";
  base = λ path. path;
}

abbrev writer : Writer String
writer = record {
  mkdir_all = λ path w. w;
  create = λ path w. (ok 2, w);
  copy_section = λ to from size w. (ok tt, w);
  close = λ f w. (ok tt, w);
  marshal = λ m. ok m.latest.version;
  write_file = λ path content w. (ok tt, content);
}

files-ReadsBack : ReadsBack files writer
files-ReadsBack path content m w w' encoded written =
    let same : m.latest.version ≡ content = ground (arith, encoded) in
    let stored : content ≡ w' = ap (λ p. p.1) written in
    (1, w', w', refl, ap (λ v. (ok v, w')) (sym (same ∙ stored)))

abbrev directory : DirectorySource
directory = record { path = "/bundles"; section = "main"; release = "1" }

abbrev bundle : BundleFile
bundle = record { ref = record { name = "redis"; version = "1.0" }; contents = 7; size = 100 }

put-latest_version_example :
    (v : String) × (latest_version files directory
        (record { name = "redis"; version = latest })
        "1.0"
      ≡ (ok "1.0", v))
unfolding directory_put
put-latest_version_example =
    put-latest_version files writer directory files-ReadsBack bundle latest "" "1.0" refl
