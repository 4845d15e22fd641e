-- ===== src/Managers/ManifestPlan.antt =====
-- managers/manifest.go: what `deploy` asks the dependency solver.
pub mod Laws
use kube_bundler.Prelude.{
  String, ◌<>◌, Bool, true, none, some, List, [], ◌∷◌, ◌++◌, map, ◌==◌, if◌then◌else◌,
}
use kube_bundler.Prelude.Dict.{Dict, lookup, lookup_or, insert}
use kube_bundler.Go.Errors.{text}
use kube_bundler.Go.Io.{Io, pure, annotate, ◌>>=◌}
use kube_bundler.Api.{Application, Install, RequiresList, BundleSpec}
use kube_bundler.Managers.Client.{KbClient}
use kube_bundler.Managers.Resource
use kube_bundler.Managers.Solver.{Entry}

-- `map[string]bool`, where every value is true.
abbrev pub Names : Type 0
Names = Dict Bool

abbrev pub keys : Names → List String
keys m = map (λ (p : String × Bool). p.0) m

-- `name += "-" + suffix` where the suffix is not empty
unfoldable pub suffixed : String → String → String
suffixed name suffix = if suffix == "" then name else name <> ("-" <> suffix)

-- `if !found { m[name] = make(map[string]bool) }`
unfoldable pub made_at : String → Dict Names → Dict Names
made_at name m = elim (lookup name m) [ none ↦ insert name [] m | some _ ↦ m ]

-- `m[name][key] = true`, where `m[name]` is there.
unfoldable pub add_at : String → String → Dict Names → Dict Names
add_at name key m = insert name (insert key true (lookup_or [] name m)) m

unfoldable pub add_suffixes : List RequiresList → Dict Names → Dict Names
unfolding made_at add_at
add_suffixes [] m = m
add_suffixes (r ∷ rs) m = add_suffixes rs (add_at r.name r.suffix (made_at r.name m))

unfoldable pub collect_suffixes : List BundleSpec → Dict Names → Dict Names
unfolding add_suffixes
collect_suffixes [] m = m
collect_suffixes (b ∷ bs) m = collect_suffixes bs (add_suffixes b.requires (made_at b.name m))

unfoldable pub add_dependencies : String → List RequiresList → Dict Names → Dict Names
unfolding made_at add_at suffixed
add_dependencies name [] m = m
add_dependencies name (r ∷ rs) m =
    add_dependencies name rs (add_at name (suffixed r.name r.suffix) (made_at name m))

unfoldable pub collect_dependencies : List BundleSpec → Dict Names → Dict Names
unfolding add_dependencies
collect_dependencies [] m = m
collect_dependencies (b ∷ bs) m = collect_dependencies bs (add_dependencies b.name b.requires m)

-- The variables `entries` and `installMap`.
pub record Plan : Type 0 where
  pub entries : List Entry
  pub install_map : Dict Install

-- `if len(suffixes[bundle.Name]) == 0 { suffixes[bundle.Name][""] = true }`
unfoldable pub default_suffix : String → Dict Names → Dict Names
unfolding add_at
default_suffix name m = elim (lookup_or [] name m) [ [] ↦ add_at name "" m | _ ∷ _ ↦ m ]

-- `ranged` gives the keys of a map in the order in which a loop meets them, which the language
-- leaves open.
module _ {W Key U : Type 0} (c : KbClient W Key U) (ranged : List String → Io W (List String)) where
  unfoldable pub collect_deps : Dict Names → List RequiresList → List String → Io W (List String)
  unfolding suffixed
  collect_deps dependencies [] deps = pure deps
  collect_deps dependencies (r ∷ rs) deps = do
    more ← ranged (keys (lookup_or [] r.name dependencies))
    collect_deps dependencies rs (deps ++ (more ++ (suffixed r.name r.suffix ∷ [])))

  unfoldable pub get_install : String → String → String → Io W Install
  get_install bundle name namespace =
      annotate "couldn't get install for bundle '%s'" (text bundle ∷ [])
        (Resource.get c.installs (λ i. i.name) (λ i. i.namespace) name namespace)

  unfoldable pub get_app : String → Install → String → Io W Application
  get_app bundle install namespace =
      annotate "couldn't get application for bundle '%s'" (text bundle ∷ []) (
        Resource.get c.applications (λ a. a.name) (λ a. a.namespace)
          (install.spec.application <> ("-" <> install.spec.version)) namespace)

  -- The body of the loop over the suffixes of a bundle.
  unfoldable pub plan_install : String → Dict Names → String → String → Plan → Io W Plan
  unfolding collect_deps suffixed get_install get_app
  plan_install namespace dependencies bundle suffix plan = do
    install ← get_install bundle (suffixed bundle suffix) namespace
    app ← get_app bundle install namespace
    deps ← collect_deps dependencies app.spec.requires []
    pure (record {
      entries = plan.entries ++ (record { id = suffixed bundle suffix; deps = deps } ∷ []);
      install_map = insert (suffixed bundle suffix) install plan.install_map;
    })

  unfoldable pub plan_suffixes : String → Dict Names → String → List String → Plan → Io W Plan
  unfolding plan_install
  plan_suffixes namespace dependencies bundle [] plan = pure plan
  plan_suffixes namespace dependencies bundle (suffix ∷ rest) plan = do
    plan' ← plan_install namespace dependencies bundle suffix plan
    plan_suffixes namespace dependencies bundle rest plan'

  unfoldable pub plan_bundles :
      String → Dict Names → Dict Names → List BundleSpec → Plan → Io W Plan
  unfolding plan_suffixes default_suffix
  plan_bundles namespace suffixes dependencies [] plan = pure plan
  plan_bundles namespace suffixes dependencies (b ∷ bs) plan = do
    names ← ranged (keys (lookup_or [] b.name (default_suffix b.name suffixes)))
    plan' ← plan_suffixes namespace dependencies b.name names plan
    plan_bundles namespace (default_suffix b.name suffixes) dependencies bs plan'

  unfoldable pub make_plan : String → List BundleSpec → Io W Plan
  unfolding plan_bundles collect_suffixes collect_dependencies
  make_plan namespace bundles =
      plan_bundles namespace (collect_suffixes bundles []) (collect_dependencies bundles []) bundles
        (record { entries = []; install_map = [] })
