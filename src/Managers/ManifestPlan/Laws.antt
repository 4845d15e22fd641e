-- ===== src/Managers/ManifestPlan/Laws.antt =====
-- What the plan of a manifest holds.
use kube_bundler.Prelude.{
  ◌≡◌, List-cases, All-at, refl, sym, ap, String, Option, none, some, List, [], ◌∷◌, ◌++◌, Memᴰ,
  All, inl, inr, arith, String-discrete, true, Bool-cases, ◌==◌,
}
use mathlib.Core.List.Memᴰ
use mathlib.Core.Path.{subst}
use kube_bundler.Prelude.Dict.{Dict, lookup, lookup_or, insert, lookup-insert}
use kube_bundler.Go.Io.{Io, ok, bind-ok}
use kube_bundler.Api.{Install, BundleSpec}
use kube_bundler.Managers.Client.{KbClient}
use kube_bundler.Managers.Solver.{Entry}
use kube_bundler.Managers.ManifestPlan.{
  Plan, Names, keys, suffixed, add_at, default_suffix, collect_suffixes, collect_dependencies,
  collect_deps, get_install, get_app, plan_install, plan_suffixes, plan_bundles, make_plan,
}

-- Every entry has its install.
abbrev pub IsMapped : Plan → Type 0
IsMapped p = (e : Entry) → Memᴰ e p.entries → (i : Install) × (lookup e.id p.install_map ≡ some i)

abbrev HasEntry : String → Plan → Type 0
HasEntry name p = (e : Entry) × Memᴰ e p.entries × (e.id ≡ name)

-- The bundle has an entry, with some suffix.
abbrev pub IsPlanned : Plan → BundleSpec → Type 0
IsPlanned p b = (suffix : String) × HasEntry (suffixed b.name suffix) p

abbrev extended : String → List String → Install → Plan → Plan
extended name deps i p = record {
  entries = p.entries ++ (record { id = name; deps = deps } ∷ []);
  install_map = insert name i p.install_map;
}

extended-IsMapped :
    (name : String) (deps : List String) (i : Install) (p : Plan)
    → IsMapped p
    → IsMapped (extended name deps i p)
extended-IsMapped name deps i p mapped e m = elim (String-discrete e.id name) [
  | yes q ↦ (i, ground (arith, q, lookup-insert e.id name i p.install_map))
  | no n ↦ elim (Memᴰ.append_cases p.entries m) [
    | inl m' ↦
        let (j, h) = mapped e m' in
        (j, ground (arith, n, lookup-insert e.id name i p.install_map, h))
    | inr m' ↦ elim (Memᴰ.cases_cons m') [
      | inl q ↦ absurd (n (ap (λ (x : Entry). x.id) q))
      | inr m'' ↦ absurd (Memᴰ.not-nil m'')
    ]
  ]
]

-- The entries of the first plan are in the second, which has installs for its entries if the first has.
record Extends (p q : Plan) : Type 0 where
  keeps : (e : Entry) → Memᴰ e p.entries → Memᴰ e q.entries
  maps : IsMapped p → IsMapped q

Extends-refl : (p : Plan) → Extends p p
Extends-refl p = record { keeps = λ e m. m; maps = λ h. h }

Extends-trans : (p q r : Plan) → Extends p q → Extends q r → Extends p r
Extends-trans p q r E F = record {
  keeps = λ e m. F.keeps e (E.keeps e m);
  maps = λ h. F.maps (E.maps h);
}

HasEntry-Extends : (name : String) (p q : Plan) → Extends p q → HasEntry name p → HasEntry name q
HasEntry-Extends name p q E (e, m, h) = (e, E.keeps e m, h)

IsNonempty : List String → Type 0
IsNonempty ks = (k : String) × Memᴰ k ks

keys-insert-IsNonempty : (k : String) (m : Names) → IsNonempty (keys (insert k true m))
unfolding insert IsNonempty
keys-insert-IsNonempty k [] = (k, Memᴰ.head refl)
keys-insert-IsNonempty k ((j, v) ∷ m) = elim (Bool-cases (k == j)) [
  | inl p ↦ (k, rw (p, insert) (Memᴰ.head refl))
  | inr p ↦ (j, rw (p, insert) (Memᴰ.head refl))
]

lookup_or-insert : (k : String) (v : Names) (m : Dict Names) → lookup_or [] k (insert k v m) ≡ v
unfolding lookup_or
lookup_or-insert k v m =
    let here : lookup k (insert k v m) ≡ some v = ground (arith, lookup-insert k k v m) in
    ap (λ (x : Option Names). elim x [ none ↦ [] | some y ↦ y ]) here

default_suffix-IsNonempty :
    (name : String) (m : Dict Names) → IsNonempty (keys (lookup_or [] name (default_suffix name m)))
unfolding default_suffix IsNonempty add_at lookup_or
default_suffix-IsNonempty name m = elim (List-cases (lookup_or [] name m)) [
  | inl p ↦
      let added = lookup_or-insert name (insert "" true (lookup_or [] name m)) m in
      let open_names = keys-insert-IsNonempty "" (lookup_or [] name m) in
      rw (p, default_suffix) (subst (λ n. IsNonempty (keys n)) (sym added) open_names)
  | inr (x, xs, p) ↦ rw (p, default_suffix) (rw p (x.0, Memᴰ.head refl))
]

module _ {W Key U : Type 0} (c : KbClient W Key U) (ranged : List String → Io W (List String)) where
  plan_install-Extends :
      (namespace : String) (dependencies : Dict Names) (bundle suffix : String) (p q : Plan)
      (w w' : W)
      → plan_install c ranged namespace dependencies bundle suffix p w ≡ (ok q, w')
      → Extends p q × HasEntry (suffixed bundle suffix) q
  unfolding plan_install
  plan_install-Extends namespace dependencies bundle suffix p q w w' h =
      let (i, w1, _, h1) =
        bind-ok (get_install c ranged bundle (suffixed bundle suffix) namespace) _ w w' q h in
      let (app, w2, _, h2) = bind-ok (get_app c ranged bundle i namespace) _ w1 w' q h1 in
      let (deps, w3, _, h3) =
        bind-ok (collect_deps c ranged dependencies app.spec.requires []) _ w2 w' q h2 in
      let same : extended (suffixed bundle suffix) deps i p ≡ q = ground (arith, h3) in
      subst (λ r. Extends p r × HasEntry (suffixed bundle suffix) r) same
        (
          record {
            keeps = λ e m. Memᴰ.append_left _ m;
            maps = extended-IsMapped (suffixed bundle suffix) deps i p;
          },
          (
            record { id = suffixed bundle suffix; deps = deps },
            Memᴰ.append_right p.entries (Memᴰ.head refl),
            refl,
          ),
        )

  plan_suffixes-Extends :
      (namespace : String) (dependencies : Dict Names) (bundle : String) (suffixes : List String)
      (p q : Plan) (w w' : W)
      → plan_suffixes c ranged namespace dependencies bundle suffixes p w ≡ (ok q, w')
      → Extends p q × All (λ s. HasEntry (suffixed bundle s) q) suffixes
  unfolding plan_suffixes
  plan_suffixes-Extends namespace dependencies bundle [] p q w w' h =
      let same : p ≡ q = ground (arith, h) in (subst (Extends p) same (Extends-refl p), tt)
  plan_suffixes-Extends namespace dependencies bundle (s ∷ rest) p q w w' h =
      let (r, w1, here, h1) =
        bind-ok (plan_install c ranged namespace dependencies bundle s p) _ w w' q h in
      let (first, entry) = plan_install-Extends namespace dependencies bundle s p r w w1 here in
      let (more, entries) = plan_suffixes-Extends namespace dependencies bundle rest r q w1 w' h1 in
      (
        Extends-trans p r q first more,
        (HasEntry-Extends (suffixed bundle s) r q more entry, entries),
      )

  plan_bundles-Extends :
      ((ks rs : List String) (w w' : W)
        → ranged ks w ≡ (ok rs, w')
        → (k : String) → Memᴰ k ks
        → Memᴰ k rs)
      → (namespace : String) (suffixes dependencies : Dict Names) (bundles : List BundleSpec)
        (p q : Plan) (w w' : W)
      → plan_bundles c ranged namespace suffixes dependencies bundles p w ≡ (ok q, w')
      → Extends p q × All (IsPlanned q) bundles
  unfolding plan_bundles IsNonempty
  plan_bundles-Extends visits namespace suffixes dependencies [] p q w w' h =
      let same : p ≡ q = ground (arith, h) in (subst (Extends p) same (Extends-refl p), tt)
  plan_bundles-Extends visits namespace suffixes dependencies (b ∷ bs) p q w w' h =
      let ks = keys (lookup_or [] b.name (default_suffix b.name suffixes)) in
      let (names, w1, visited, h1) = bind-ok (ranged ks) _ w w' q h in
      let (r, w2, here, h2) =
        bind-ok (plan_suffixes c ranged namespace dependencies b.name names p) _ w1 w' q h1 in
      let (first, entries) =
        plan_suffixes-Extends namespace dependencies b.name names p r w1 w2 here in
      let (more, planned) =
        plan_bundles-Extends visits namespace (default_suffix b.name suffixes) dependencies bs r q
          w2 w' h2 in
      let (k, there) = default_suffix-IsNonempty b.name suffixes in
      let entry =
        All-at (λ x. HasEntry (suffixed b.name x) r) names entries k
          (visits ks names w w1 visited k there) in
      (
        Extends-trans p r q first more,
        ((k, HasEntry-Extends (suffixed b.name k) r q more entry), planned),
      )

  -- If the plan of a manifest is made with no error, and a loop over a map visits all its keys, then each bundle of the
  -- manifest has an entry, under its name with some suffix, and each entry has its install in the
  -- map of the installs.
  pub make_plan-IsPlanned :
      ((ks rs : List String) (w w' : W)
        → ranged ks w ≡ (ok rs, w')
        → (k : String) → Memᴰ k ks
        → Memᴰ k rs)
      → (namespace : String) (bundles : List BundleSpec) (p : Plan) (w w' : W)
      → make_plan c ranged namespace bundles w ≡ (ok p, w')
      → All (IsPlanned p) bundles × IsMapped p
  unfolding make_plan
  make_plan-IsPlanned visits namespace bundles p w w' h =
      let (extends, planned) =
        plan_bundles-Extends visits namespace (collect_suffixes bundles [])
          (collect_dependencies bundles []) bundles (record { entries = []; install_map = [] }) p w
          w' h in
      (planned, extends.maps (λ e m. absurd (Memᴰ.not-nil m)))
