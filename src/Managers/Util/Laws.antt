-- ===== src/Managers/Util/Laws.antt =====
-- What the check of the nodes' CPU and memory accepts.
use kube_bundler.Managers.Util.{cpu_error}
use kube_bundler.Prelude.{
  String, ◌≡◌, ◌≢◌, refl, ◌↔◌, ◌⊎◌, inl, inr, List, [], ◌∷◌, All, arith, String-discrete,
  Bool-cases,
}
use mathlib.Core.Logic.{if_pos, if_neg}
use kube_bundler.Prelude.Int.{ℤ, ◌≤ℤ◌, ltb_ℤ}
use kube_bundler.Go.Errors.{Error}
use kube_bundler.Go.Io.{Result, ok, Result-cases}
use kube_bundler.Api.{ManifestSpec}
use kube_bundler.Cluster.Objects.{Node}
use kube_bundler.Managers.Util.{check_quantity, check_capacity, judge_quantity, memory_error}

module _ (parse : String → Result ℤ) where
  -- Nothing is required, or a quantity that has, rounded up, at most this value.
  abbrev pub Suffices : String → ℤ → Type 0
  Suffices required available =
      (required ≡ "") ⊎ ((required ≢ "") × (v : ℤ) × (parse required ≡ ok v) × (v ≤ℤ available))

  abbrev pub IsLargeEnough : ManifestSpec → Node → Type 0
  IsLargeEnough spec n = Suffices spec.cpu n.cpu_value × Suffices spec.memory n.memory_value

  check_quantity_iff :
      (required : String) (available : ℤ) (parse_error : String) (too_small : ℤ → Error)
      (rest : Result (Unit {0}))
      → (check_quantity parse required available parse_error too_small rest ≡ ok tt)
        ↔ (Suffices required available × (rest ≡ ok tt))
  unfolding check_quantity judge_quantity
  check_quantity_iff required available parse_error too_small rest = (to, from)
    where
      to :
          check_quantity parse required available parse_error too_small rest ≡ ok tt
          → Suffices required available × (rest ≡ ok tt)
      to e = elim (String-discrete required "") [
        | yes p ↦ (inl p, rw (if_pos _ p) at e)
        | no n ↦ elim (Result-cases (parse required)) [
          | inl (v, q) ↦
              let e' = (rw (if_neg _ n, q) at e) in
              elim (Bool-cases (ltb_ℤ available v)) [
                | inl b ↦ ground (arith, rw b at e')
                | inr b ↦ (inr (n, v, q, ground (arith, b)), rw b at e')
              ]
          | inr (inl (x, q)) ↦ ground (arith, rw (if_neg _ n, q) at e)
          | inr (inr (why, q)) ↦ ground (arith, rw (if_neg _ n, q) at e)
        ]
      ]

      from :
          Suffices required available × (rest ≡ ok tt)
          → check_quantity parse required available parse_error too_small rest ≡ ok tt
      from (inl p, h) = rw (if_pos _ p) h
      from (inr (n, v, q, le), h) = rw (if_neg _ n, q) (ground (arith, le, h))

  -- The check of the nodes succeeds exactly if on every node the values of its CPU and memory are at least those of the required
  -- quantities, where a required text can be read as a quantity. The values are whole units, to which both sides are
  -- rounded up, so that fractions are not compared.
  pub check_capacity_iff :
      (spec : ManifestSpec) (nodes : List Node)
      → (check_capacity parse spec nodes ≡ ok tt) ↔ All (IsLargeEnough spec) nodes
  unfolding check_capacity
  check_capacity_iff spec [] = ((λ h. tt), (λ h. refl))
  check_capacity_iff spec (n ∷ ns) =
      let (f, g) = check_capacity_iff spec ns in
      let memory =
        check_quantity_iff spec.memory n.memory_value "Failed to parse field 'Memory' in manifest"
          (memory_error parse n) (check_capacity parse spec ns) in
      let cpu =
        check_quantity_iff spec.cpu n.cpu_value "Failed to parse field 'CPU' in manifest"
          (cpu_error parse n)
          (check_quantity parse spec.memory n.memory_value
            "Failed to parse field 'Memory' in manifest" (memory_error parse n)
            (check_capacity parse spec ns)) in
      (
        (λ h. let (x, y) = cpu.0 h in let (x', y') = memory.0 y in ((x, x'), f y')),
        (λ h. cpu.1 (h.0.0, memory.1 (h.0.1, g h.1))),
      )
