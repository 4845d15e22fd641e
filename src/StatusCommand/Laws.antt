-- ===== src/StatusCommand/Laws.antt =====
-- The counts of the summary, and the rows that are left when duplicates are removed.
use kube_bundler.Prelude.{
  ◌≡◌, ◌↔◌, refl, sym, ◌+◌, String, true, List, [], ◌∷◌, ◌++◌, ◌==◌, inl, inr, arith, length,
  length-append, Memᴰ, Bool-cases,
}
use mathlib.Core.List.Memᴰ
use mathlib.Core.List.{append_assoc}
use mathlib.Core.Path.{subst}
use kube_bundler.Go.Io.{Result, ok, err, panic, attempt, bind-ok}
use kube_bundler.Managers.Health.{AppStatus, EndpointStatus}
use kube_bundler.StatusCommand.Counts.{
  Row, Line, failed, counted, line_errors, Summary, app_status_text, endpoint_errors,
  healthy_endpoints, count_apps, healthy_resources, resource_errors, count_resources,
}
use kube_bundler.StatusCommand.{
  StatusTools, app_line, resource_line, get_application_status, get_resource_status, print_status,
  same_row, has_row, collect_unique, get_unique_resources,
}

-- Everything that is counted is healthy or has a line among the errors.
abbrev pub IsBalanced : Line → Type 0
IsBalanced failed = Unit
IsBalanced (counted c) = c.healthy + length c.errors ≡ c.total

endpoints_balanced :
    (app : String) (es : List EndpointStatus)
    → healthy_endpoints es + length (endpoint_errors app es) ≡ length es
unfolding healthy_endpoints endpoint_errors
endpoints_balanced app [] = omega arith
endpoints_balanced app (e ∷ es) = elim (Bool-cases (app_status_text e.status == "down")) [
  | inl p ↦ rw p (omega (arith, endpoints_balanced app es))
  | inr p ↦ rw p (omega (arith, endpoints_balanced app es))
]

apps_balanced :
    (apps : List AppStatus)
    → (count_apps apps).healthy + length (count_apps apps).errors ≡ (count_apps apps).total
unfolding count_apps
apps_balanced [] = omega arith
apps_balanced (a ∷ apps) = omega (
  arith,
  apps_balanced apps,
  endpoints_balanced a.app a.endpoints,
  length-append (endpoint_errors a.app a.endpoints) (count_apps apps).errors,
)

resources_balanced :
    {T : Type 0} (rs : List (Row T))
    → healthy_resources rs + length (resource_errors rs) ≡ length rs
unfolding healthy_resources resource_errors
resources_balanced [] = omega arith
resources_balanced (r ∷ rs) = elim (Bool-cases (r.status == "up")) [
  | inl p ↦ rw p (omega (arith, resources_balanced rs))
  | inr p ↦ rw p (omega (arith, resources_balanced rs))
]

module _ {W T : Type 0} (t : StatusTools W T) where
  app_line-IsBalanced : (r : Result (List AppStatus)) → IsBalanced (app_line t r)
  unfolding app_line
  app_line-IsBalanced (ok apps) = apps_balanced apps
  app_line-IsBalanced (err e) = tt
  app_line-IsBalanced (panic why) = tt

  resource_line-IsBalanced : (r : Result (List (Row T))) → IsBalanced (resource_line t r)
  unfolding resource_line count_resources
  resource_line-IsBalanced (ok rs) = resources_balanced rs
  resource_line-IsBalanced (err e) = tt
  resource_line-IsBalanced (panic why) = tt

  -- In the summary of the status, each kind that could be asked for has as many healthy entries and
  -- error lines together as its total, and the error lines are those of the applications and then
  -- those of the resources.
  print_status-IsBalanced :
      (w w' : W) (s : Summary)
      → print_status t w ≡ (ok s, w')
      → IsBalanced s.applications
        × IsBalanced s.resources
        × (s.errors ≡ line_errors s.applications ++ line_errors s.resources)
  unfolding print_status
  print_status-IsBalanced w w' s h =
      let (apps, w1, h1, r1) = bind-ok (attempt (get_application_status t)) _ w w' s h in
      let (rs, w2, h2, r2) = bind-ok (attempt (get_resource_status t)) _ w1 w' s r1 in
      let a = app_line t apps in
      let r = resource_line t rs in
      let same : record { applications = a; resources = r; errors = line_errors a ++ line_errors r }
          ≡ s =
        ground (arith, r2) in
      subst
        (λ (x : Summary).
          IsBalanced x.applications
          × IsBalanced x.resources
          × (x.errors ≡ line_errors x.applications ++ line_errors x.resources))
        same (app_line-IsBalanced apps, resource_line-IsBalanced rs, refl)

  -- `==` of two times says whether they are the same.
  abbrev pub TimesCompare : Type 0
  TimesCompare = (a b : T) → (t.same_time a b ≡ true) ↔ (a ≡ b)

  same_row_iff : TimesCompare → (a b : Row T) → (same_row t a b ≡ true) ↔ (a ≡ b)
  unfolding same_row
  same_row_iff times a b = ground (arith, times a.last_updated b.last_updated)

  has_row_iff : TimesCompare → (xs : List (Row T)) (r : Row T) → (has_row t xs r ≡ true) ↔ Memᴰ r xs
  unfolding has_row
  has_row_iff times [] r = (λ h. ground (arith, h), λ m. absurd (Memᴰ.not-nil m))
  has_row_iff times (x ∷ xs) r = elim (Bool-cases (same_row t x r)) [
    | inl p ↦ (λ h. Memᴰ.head (sym ((same_row_iff times x r).0 p)), λ m. rw p refl)
    | inr p ↦ (
      λ h. Memᴰ.tail ((has_row_iff times xs r).0 (rw p at h)),
      λ m. elim (Memᴰ.cases_cons m) [
        | inl e ↦ ground (arith, p, (same_row_iff times x r).1 (sym e))
        | inr m' ↦ rw p ((has_row_iff times xs r).1 m')
      ],
    )
  ]

  -- No row stands twice in the list.
  abbrev pub IsDistinct : List (Row T) → Type 0
  IsDistinct [] = Unit
  IsDistinct (x ∷ xs) = ¬ Memᴰ x xs × IsDistinct xs

  IsDistinct-append :
      (xs : List (Row T)) (r : Row T) → IsDistinct xs → ¬ Memᴰ r xs → IsDistinct (xs ++ (r ∷ []))
  IsDistinct-append [] r d n = (Memᴰ.not-nil, tt)
  IsDistinct-append (x ∷ xs) r d n = (
    λ m. elim (Memᴰ.append_cases xs m) [
      | inl m' ↦ d.0 m'
      | inr m' ↦ elim (Memᴰ.cases_cons m') [
        | inl e ↦ n (Memᴰ.head (sym e))
        | inr m'' ↦ Memᴰ.not-nil m''
      ]
    ],
    IsDistinct-append xs r d.1 (λ m. n (Memᴰ.tail m)),
  )

  -- The second list has no row twice and holds exactly the rows of the first.
  pub record IsUnique (rs out : List (Row T)) : Type 0 where
    pub distinct : IsDistinct out
    pub complete : (x : Row T) → Memᴰ x rs → Memᴰ x out
    pub sound : (x : Row T) → Memᴰ x out → Memᴰ x rs

  -- The loop keeps the rows before it, which are the keys of the map.
  collect_unique-IsUnique :
      TimesCompare
      → (rs keys unique : List (Row T)) → ((x : Row T) → Memᴰ x keys → Memᴰ x unique)
      → ((x : Row T) → Memᴰ x unique → Memᴰ x keys)
      → IsDistinct unique
      → IsUnique (unique ++ rs) (collect_unique t rs keys unique)
  unfolding collect_unique
  collect_unique-IsUnique times [] keys unique f g d = record {
    distinct = d;
    complete = λ x m. elim (Memᴰ.append_cases unique m) [
      | inl m' ↦ m'
      | inr m' ↦ absurd (Memᴰ.not-nil m')
    ];
    sound = λ x m. Memᴰ.append_left [] m;
  }
  collect_unique-IsUnique times (r ∷ rs) keys unique f g d = elim (Bool-cases (has_row t keys r)) [
    | inl p ↦
        let there = f r ((has_row_iff times keys r).0 p) in
        let rest = collect_unique-IsUnique times rs keys unique f g d in
        rw p (record {
          distinct = rest.distinct;
          complete = λ x m. rest.complete x (elim (Memᴰ.append_cases unique m) [
            | inl m' ↦ Memᴰ.append_left rs m'
            | inr m' ↦ elim (Memᴰ.cases_cons m') [
              | inl e ↦ Memᴰ.append_left rs (subst (λ y. Memᴰ y unique) (sym e) there)
              | inr m'' ↦ Memᴰ.append_right unique m''
            ]
          ]);
          sound = λ x m. elim (Memᴰ.append_cases unique (rest.sound x m)) [
            | inl m' ↦ Memᴰ.append_left (r ∷ rs) m'
            | inr m' ↦ Memᴰ.append_right unique (Memᴰ.tail m')
          ];
        })
    | inr p ↦
        let fresh : ¬ Memᴰ r unique =
          λ m. ground (arith, p, (has_row_iff times keys r).1 (g r m)) in
        let rest =
          collect_unique-IsUnique times rs (r ∷ keys) (unique ++ (r ∷ []))
            (λ x m. elim (Memᴰ.cases_cons m) [
              | inl e ↦ Memᴰ.append_right unique (Memᴰ.head e)
              | inr m' ↦ Memᴰ.append_left (r ∷ []) (f x m')
            ])
            (λ x m. elim (Memᴰ.append_cases unique m) [
              | inl m' ↦ Memᴰ.tail (g x m')
              | inr m' ↦ elim (Memᴰ.cases_cons m') [
                | inl e ↦ Memᴰ.head e
                | inr m'' ↦ absurd (Memᴰ.not-nil m'')
              ]
            ])
            (IsDistinct-append unique r d fresh) in
        let flat : (unique ++ (r ∷ [])) ++ rs ≡ unique ++ (r ∷ rs) =
          append_assoc unique (r ∷ []) rs in
        rw p (
          subst (λ xs. IsUnique xs (collect_unique t rs (r ∷ keys) (unique ++ (r ∷ [])))) flat rest)
  ]

  -- Where `==` of two times says whether they are the same: when duplicates are removed from the rows, no row is left twice, and
  -- the rows that are left are exactly those that were given.
  pub get_unique_resources-IsUnique :
      TimesCompare → (rs : List (Row T)) → IsUnique rs (get_unique_resources t rs)
  unfolding get_unique_resources
  get_unique_resources-IsUnique times rs =
      collect_unique-IsUnique times rs [] [] (λ x m. m) (λ x m. m) tt
