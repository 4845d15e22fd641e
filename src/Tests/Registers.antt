-- ===== src/Tests/Registers.antt =====
-- Two bundles that are registered in the order of their dependencies. The world counts the files that
-- are closed.
use kube_bundler.Prelude.{
  ℕ, ◌+◌, refl, String, List, [], ◌∷◌, eqb, if◌then◌else◌, ◌==◌, String-discrete,
}
use kube_bundler.Prelude.Dict.{lookup, insert}
use kube_bundler.Go.Io.{ok}
use kube_bundler.Api.{Application}
use kube_bundler.Managers.Source.{BundleRef, BundleFile, Source, Files}
use kube_bundler.Managers.Source
use kube_bundler.Managers.Register.{validate_dependencies}
use kube_bundler.Managers.RegisterAll.{register_all}
use kube_bundler.Managers.RegisterAll.Laws.{AllRegistered, register_all-AllRegistered}
use kube_bundler.Tests.Client.{objects, application, needs}
use kube_bundler.Tests.Solvers.{solve, solve-Sound}

abbrev named : String → Application
named name = application (if name == "web" then needs "redis" ∷ [] else []) name

abbrev files : Files ℕ
files = record {
  stat = λ path w. (ok 100, w);
  open_file = λ path w. (ok 7, w);
  decode_latest = λ f w. (ok "1.0", w);
  zip_reader = λ f size w. (ok f, w);
  open_entry = λ z name w. (ok z, w);
  decode_app = λ f w. (ok (named (if eqb f 1 then "web" else "redis")), w);
  close = λ f w. w + 1;
  join = λ parts. "";
  base = λ path. path;
}

abbrev source : Source ℕ
source = record {
  get = λ ref w.
      (ok (record { ref = ref; contents = if ref.name == "web" then 1 else 2; size = 100 }), w);
  put = λ bundle w. (ok tt, w);
}

abbrev refs : List BundleRef
refs = record { name = "web"; version = "1.0" } ∷ record { name = "redis"; version = "1.0" } ∷ []

abbrev ordered : List Application
ordered = named "redis-1.0" ∷ named "web-1.0" ∷ []

register_all-AllRegistered_example : AllRegistered (objects named) files refs source "default" 0 4
unfolding register_all Source.application validate_dependencies kube_bundler.Managers.Resource.list
    String-discrete lookup insert kube_bundler.Managers.Resource.create_if_not_exists
register_all-AllRegistered_example =
    register_all-AllRegistered (objects named) files solve solve-Sound refs source "default" ordered
      0 4 refl
