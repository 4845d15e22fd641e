-- ===== src/Tests/Plans.antt =====
-- The plan of a manifest in that cluster.
use kube_bundler.Prelude.{◌≡◌, refl, ℕ, String, List, [], ◌∷◌, All}
use kube_bundler.Go.Io.{Io, ok}
use kube_bundler.Managers.ManifestPlan.{Plan, make_plan}
use kube_bundler.Managers.ManifestPlan.Laws.{IsPlanned, IsMapped, make_plan-IsPlanned}
use kube_bundler.Managers.Resource
use kube_bundler.Prelude.Dict.{lookup, insert, lookup_or}
use kube_bundler.Prelude.{String-discrete, arith, Memᴰ}
use mathlib.Core.Path.{subst}
use kube_bundler.Tests.Client.{client, install, manifest}
use kube_bundler.Tests.World.{world}

abbrev ranged : List String → Io ℕ (List String)
ranged keys w = (ok keys, w)

ranged_visits :
    (ks rs : List String) (w w' : ℕ)
    → ranged ks w ≡ (ok rs, w')
    → (k : String) → Memᴰ k ks
    → Memᴰ k rs
ranged_visits ks rs w w' e k m = let same : ks ≡ rs = ground (arith, e) in subst (Memᴰ k) same m

abbrev plan : Plan
plan = record {
  entries = record { id = "web"; deps = "db" ∷ [] } ∷ record { id = "db"; deps = [] } ∷ [];
  install_map = ("web", install "web") ∷ ("db", install "db") ∷ [];
}

make_plan-IsPlanned_example : All (IsPlanned plan) (manifest "all").spec.bundles × IsMapped plan
unfolding make_plan Resource.get lookup insert lookup_or String-discrete
make_plan-IsPlanned_example =
    make_plan-IsPlanned (client world) ranged ranged_visits "default" (manifest "all").spec.bundles
      plan 0 0 refl
