-- ===== src/StatusCommand/Order.antt =====
-- The order by which the rows are sorted.
use kube_bundler.Prelude.{◌≡◌, sym, ◌∙◌, String, Bool, true, false, inl, inr, arith, Bool-cases}
use mathlib.Core.Path.{subst}
use kube_bundler.Prelude.Int.{ℤ, eqb_ℤ, ltb_ℤ}
use kube_bundler.Go.Compare.{
  compare, IsBefore, compare-zero_iff, compare_asym, compare_total, compare_trans,
}
use kube_bundler.StatusCommand.Counts.{Row}
use kube_bundler.StatusCommand.{row_less}

-- What `sort.Slice` asks of `less`: a strict order in which rows that neither precede one another
-- have the same key.
pub record IsStrictOrder {A : Type 0} (less : A → A → Bool) (SameKey : A → A → Type 0)
    : Type 0 where
  pub asym : (a b : A) → less a b ≡ true → less b a ≡ false
  pub trans : (a b c : A) → less a b ≡ true → less b c ≡ true → less a c ≡ true
  pub ties : (a b : A) → less a b ≡ false → less b a ≡ false → SameKey a b

irrefl : (a : String) → ltb_ℤ (compare a a) (ℤ.pos 0) ≡ false
irrefl a = elim (Bool-cases (ltb_ℤ (compare a a) (ℤ.pos 0))) [
  | inl p ↦ compare_asym a a p
  | inr p ↦ p
]

not_zero : (z : ℤ) → ltb_ℤ z (ℤ.pos 0) ≡ true → eqb_ℤ z (ℤ.pos 0) ≡ false
not_zero z h = ground (arith, h)

-- The comparison of a text with an equal one is not below zero.
equal_not_less : (a b : String) → a ≡ b → ¬ IsBefore a b
equal_not_less a b e h =
    let f : IsBefore a a = subst (λ x. IsBefore a x) (sym e) h in ground (arith, f, irrefl a)

both_less : (a b : String) → IsBefore a b → ¬ IsBefore b a
both_less a b h k = ground (arith, compare_asym a b h, k)

-- An equal text on one side of a comparison.
move_right : (a b c : String) → IsBefore a b → b ≡ c → IsBefore a c
move_right a b c h e = subst (λ x. IsBefore a x) e h

move_left : (a b c : String) → a ≡ b → IsBefore b c → IsBefore a c
move_left a b c e h = subst (λ x. IsBefore x c) (sym e) h

neither_less : (a b : String) → ¬ IsBefore a b → ¬ IsBefore b a → a ≡ b
neither_less a b h k = compare_total a b (ground (arith, h)) (ground (arith, k))

module _ {T : Type 0} where
  abbrev pub SameKey : Row T → Row T → Type 0
  SameKey a b = (a.category ≡ b.category) × (a.service ≡ b.service) × (a.name ≡ b.name)

  -- The order spelled out.
  pub data Less (a b : Row T) : Type 0 where
    by_category : IsBefore a.category b.category → Less a b
    by_service : a.category ≡ b.category → IsBefore a.service b.service → Less a b
    by_name : a.category ≡ b.category → a.service ≡ b.service → IsBefore a.name b.name → Less a b

  row_less-Less : (a b : Row T) → row_less a b ≡ true → Less a b
  unfolding row_less
  row_less-Less a b h = elim (Bool-cases (eqb_ℤ (compare a.category b.category) (ℤ.pos 0))) [
    | inl p ↦ elim (Bool-cases (eqb_ℤ (compare a.service b.service) (ℤ.pos 0))) [
      | inl q ↦ elim (Bool-cases (eqb_ℤ (compare a.name b.name) (ℤ.pos 0))) [
        | inl r ↦ ground (arith, rw (p, q, r) at h)
        | inr r ↦
            by_name ((compare-zero_iff a.category b.category).0 p)
              ((compare-zero_iff a.service b.service).0 q) (rw (p, q, r) at h)
      ]
      | inr q ↦ by_service ((compare-zero_iff a.category b.category).0 p) (rw (p, q) at h)
    ]
    | inr p ↦ by_category (rw p at h)
  ]

  Less-row_less : (a b : Row T) → Less a b → row_less a b ≡ true
  unfolding row_less
  Less-row_less a b (by_category h) = rw (not_zero (compare a.category b.category) h) h
  Less-row_less a b (by_service e h) =
      rw ((compare-zero_iff a.category b.category).1 e, not_zero (compare a.service b.service) h) h
  Less-row_less a b (by_name e f h) =
      rw
        (
          (compare-zero_iff a.category b.category).1 e,
          (compare-zero_iff a.service b.service).1 f,
          not_zero (compare a.name b.name) h,
        )
        h

  Less-asym : (a b : Row T) → Less a b → ¬ Less b a
  Less-asym a b (by_category h) (by_category k) = both_less a.category b.category h k
  Less-asym a b (by_category h) (by_service e k) = equal_not_less a.category b.category (sym e) h
  Less-asym a b (by_category h) (by_name e f k) = equal_not_less a.category b.category (sym e) h
  Less-asym a b (by_service e h) (by_category k) = equal_not_less b.category a.category (sym e) k
  Less-asym a b (by_service e h) (by_service f k) = both_less a.service b.service h k
  Less-asym a b (by_service e h) (by_name f g k) = equal_not_less a.service b.service (sym g) h
  Less-asym a b (by_name e f h) (by_category k) = equal_not_less b.category a.category (sym e) k
  Less-asym a b (by_name e f h) (by_service g k) = equal_not_less b.service a.service (sym f) k
  Less-asym a b (by_name e f h) (by_name g i k) = both_less a.name b.name h k

  Less-trans : (a b c : Row T) → Less a b → Less b c → Less a c
  Less-trans a b c (by_category h) (by_category k) =
      by_category (compare_trans a.category b.category c.category h k)
  Less-trans a b c (by_category h) (by_service e k) =
      by_category (move_right a.category b.category c.category h e)
  Less-trans a b c (by_category h) (by_name e f k) =
      by_category (move_right a.category b.category c.category h e)
  Less-trans a b c (by_service e h) (by_category k) =
      by_category (move_left a.category b.category c.category e k)
  Less-trans a b c (by_service e h) (by_service f k) =
      by_service (e ∙ f) (compare_trans a.service b.service c.service h k)
  Less-trans a b c (by_service e h) (by_name f g k) =
      by_service (e ∙ f) (move_right a.service b.service c.service h g)
  Less-trans a b c (by_name e f h) (by_category k) =
      by_category (move_left a.category b.category c.category e k)
  Less-trans a b c (by_name e f h) (by_service g k) =
      by_service (e ∙ g) (move_left a.service b.service c.service f k)
  Less-trans a b c (by_name e f h) (by_name g i k) =
      by_name (e ∙ g) (f ∙ i) (compare_trans a.name b.name c.name h k)

  not_Less : (a b : Row T) → row_less a b ≡ false → ¬ Less a b
  not_Less a b h l = ground (arith, h, Less-row_less a b l)

  -- The order of the rows is strict, as the sort asks, and rows of which neither comes first have the same category, service and name.
  pub row_less-IsStrictOrder : IsStrictOrder row_less SameKey
  row_less-IsStrictOrder = record {
    asym = λ a b h. elim (Bool-cases (row_less b a)) [
      | inl p ↦ absurd (Less-asym a b (row_less-Less a b h) (row_less-Less b a p))
      | inr p ↦ p
    ];
    trans = λ a b c h k.
        Less-row_less a c (Less-trans a b c (row_less-Less a b h) (row_less-Less b c k));
    ties = λ a b h k.
        let n = not_Less a b h in
        let m = not_Less b a k in
        let category =
          neither_less a.category b.category (λ x. n (by_category x)) (λ x. m (by_category x)) in
        let service =
          neither_less a.service b.service (λ x. n (by_service category x))
            (λ x. m (by_service (sym category) x)) in
        (
          category,
          service,
          neither_less a.name b.name (λ x. n (by_name category service x))
              (λ x. m (by_name (sym category) (sym service) x)),
        );
  }
