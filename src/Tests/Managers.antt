-- ===== src/Tests/Managers.antt =====
-- Bundles, applications and statuses. The world counts the calls.
use kube_bundler.Prelude.{ℕ, ◌+◌, ◌≢◌, refl, String, List, [], ◌∷◌, String-discrete, ==_iff, arith}
use kube_bundler.Go.Errors.{Error, Kind, leaf, is_err_not_found}
use kube_bundler.Go.Io.{ok, err}
use kube_bundler.Api.{Application, RequiresList}
use kube_bundler.Managers.Source.{
  latest, Source, BundleRef, BundleFile, Files, DirectorySource, err_not_found,
}
use kube_bundler.Managers.Source.Laws.{Lacking}

abbrev redis : BundleRef
redis = record { name = "redis"; version = "1.0" }

abbrev file : BundleFile
file = record { ref = redis; contents = 7; size = 100 }

-- A source without bundles, and a source that has every bundle.
abbrev empty : Source ℕ
empty = record { get = λ ref w. (err err_not_found, w + 1); put = λ bundle w. (ok tt, w) }

abbrev full : Source ℕ
full = record { get = λ ref w. (ok file, w + 1); put = λ bundle w. (ok tt, w) }

empty-Lacking : Lacking redis (empty ∷ []) 0 1
unfolding is_err_not_found
empty-Lacking = Lacking.lacks empty 0 1 err_not_found refl refl (Lacking.none_asked 1)

abbrev missing : Error
missing = leaf Kind.file_not_exist "no such file" []

abbrev no_files : Files ℕ
no_files = record {
  stat = λ path w. (err missing, w);
  open_file = λ path w. (err missing, w);
  decode_latest = λ f w. (ok "1.0", w);
  zip_reader = λ f size w. (err missing, w);
  open_entry = λ z name w. (err missing, w);
  decode_app = λ f w. (err missing, w);
  close = λ f w. w;
  join = λ parts. "";
  base = λ path. path;
}

abbrev directory : DirectorySource
directory = record { path = "/bundles"; section = "main"; release = "1" }

fixed_version : redis.version ≢ latest
unfolding String-discrete
fixed_version p = ground (arith, (==_iff redis.version latest).1 p)

abbrev needs : String → RequiresList
needs name = record { name = name; suffix = ""; parameters = [] }

abbrev app : String → List RequiresList → Application
app name requires = record {
  name = name;
  namespace = "default";
  spec = record {
    name = name;
    version = "1.0";
    docker_registry = "";
    deploy_image = "deploy";
    images = [];
    parameter_definitions = [];
    provides = [];
    requires = requires;
    resources = [];
    status = [];
  };
}

abbrev apps : List Application
apps = app "web" (needs "redis" ∷ needs "postgres" ∷ []) ∷ app "redis" [] ∷ []

-- An object that never goes.
