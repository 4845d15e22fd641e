-- ===== src/Parameter/Required.antt =====
-- What `Validate` accepts and what it reports.
use kube_bundler.Prelude.{◌++◌, Bool-cases, inl, inr, ◌&&◌, ◌==◌, ap, String, ◌≡◌, refl, true, ◌↔◌}
use kube_bundler.Prelude.{Option, none, some, List, [], ◌∷◌, arith, All}
use kube_bundler.Prelude.Dict.{Dict, lookup, lookup_or, insert, lookup-nil}
use kube_bundler.Go.Errors.{Error, errorf, text}
use kube_bundler.Go.Io.{ok, err, Result}
use kube_bundler.Go.Text.{trim_space, IsBlank, trim_space-eq-nil_iff}
use kube_bundler.Api.{ParameterSpec, ParameterDefinitionSpec}
use kube_bundler.Parameter.Last.{
  or_else, last_of, insert_all, lookup-insert_all, map_option, last_of-map,
}
use kube_bundler.Parameter.Manager.{
  fresh, no_parameter, given_values, check_definitions, validate, ParameterManager,
}

abbrev pub value_in : Option String → String
value_in none = ""
value_in (some v) = v

-- The value that the parameters give to a name: the last one counts, and "" stands for none.
unfoldable pub given_value : List ParameterSpec → String → String
given_value ps k = value_in (last_of (λ p. p.name) (λ p. p.value) k ps)

-- A required definition has a value that is not blank.
abbrev pub HasValue : List ParameterSpec → ParameterDefinitionSpec → Type 0
HasValue ps d = d.required ≡ true → ¬ IsBlank (given_value ps d.name)

given_values-eq :
    (m : Dict ParameterSpec) (ps : List ParameterSpec)
    → given_values m ps ≡ insert_all (λ p. p.name) fresh m ps
unfolding given_values insert_all
given_values-eq m [] = refl
given_values-eq m (p ∷ ps) = given_values-eq (insert p.name (fresh p) m) ps

abbrev last_given : List ParameterSpec → String → Option ParameterSpec
last_given ps k = last_of (λ p. p.name) fresh k ps

given_value-eq :
    (ps : List ParameterSpec) (k : String)
    → given_value ps k ≡ value_in (map_option (λ p. p.value) (last_given ps k))
unfolding given_value
given_value-eq ps k =
    ap value_in
      (last_of-map (λ (p : ParameterSpec). p.name) fresh (λ (p : ParameterSpec). p.value) k ps)

lookup-given_values :
    (ps : List ParameterSpec) (k : String)
    → lookup k (given_values [] ps) ≡ or_else (last_given ps k) none
lookup-given_values ps k =
    rw given_values-eq
      (rw (lookup-insert_all (λ (p : ParameterSpec). p.name) fresh k [] ps) (rw lookup-nil))

-- The value that the check reads is the last one given.
lookup_or-given_values :
    (zero_value : ParameterSpec) (ps : List ParameterSpec) (k : String)
    → zero_value.value ≡ ""
    → (lookup_or zero_value k (given_values [] ps)).value ≡ given_value ps k
unfolding lookup_or
lookup_or-given_values zero_value ps k e =
    ground (arith, given_value-eq ps k, lookup-given_values ps k)

module _ (ps : List ParameterSpec) where
  check_definitions-ok :
      (ds : List ParameterDefinitionSpec)
      → check_definitions (given_values [] ps) ds ≡ ok tt
      → All (HasValue ps) ds
  unfolding check_definitions
  check_definitions-ok [] h = tt
  check_definitions-ok (d ∷ ds) h = ground (
    arith,
    lookup_or-given_values no_parameter ps d.name,
    trim_space-eq-nil_iff (given_value ps d.name),
    check_definitions-ok ds,
  )

  ok-check_definitions :
      (ds : List ParameterDefinitionSpec)
      → All (HasValue ps) ds
      → check_definitions (given_values [] ps) ds ≡ ok tt
  unfolding check_definitions
  ok-check_definitions [] h = refl
  ok-check_definitions (d ∷ ds) h = ground (
    arith,
    lookup_or-given_values no_parameter ps d.name,
    trim_space-eq-nil_iff (given_value ps d.name),
    ok-check_definitions ds,
  )

-- The parameters are valid exactly if every required definition has a value that holds a
-- character which is not white space. Of several parameters of one name the last one counts.
validate-ok_iff :
    (pm : ParameterManager) → (validate pm ≡ ok tt) ↔ All (HasValue pm.parameters) pm.definitions
unfolding validate
validate-ok_iff pm = (
  check_definitions-ok pm.parameters pm.definitions,
  ok-check_definitions pm.parameters pm.definitions,
)

-- The definitions split at the first one that has no value but needs one, which the error names.
pub record Missing (ps : List ParameterSpec) (ds : List ParameterDefinitionSpec) (e : Error)
    : Type 0 where
  pub before : List ParameterDefinitionSpec
  pub definition : ParameterDefinitionSpec
  pub after : List ParameterDefinitionSpec
  pub split : ds ≡ before ++ (definition ∷ after)
  pub earlier : All (HasValue ps) before
  pub required : definition.required ≡ true
  pub blank : IsBlank (given_value ps definition.name)
  pub reported : e ≡ errorf "required parameter '%s' not set" (text definition.name ∷ [])

check_definitions-err :
    (ps : List ParameterSpec) (ds : List ParameterDefinitionSpec) (e : Error)
    → check_definitions (given_values [] ps) ds ≡ err e
    → Missing ps ds e
unfolding check_definitions
check_definitions-err ps [] e h = absurd (ground arith)
check_definitions-err ps (d ∷ ds) e h =
    elim (Bool-cases
      (d.required && trim_space (lookup_or no_parameter d.name (given_values [] ps)).value == "")) [
        | inl bad ↦ record {
          before = [];
          definition = d;
          after = ds;
          split = refl;
          earlier = tt;
          required = ground arith;
          blank =
              (trim_space-eq-nil_iff (given_value ps d.name)).0
                (ground (arith, lookup_or-given_values no_parameter ps d.name));
          reported = ground arith;
        }
        | inr good ↦
            let rest = check_definitions-err ps ds e (ground arith) in
            record {
              before = d ∷ rest.before;
              definition = rest.definition;
              after = rest.after;
              split = ap (λ l. d ∷ l) rest.split;
              earlier = (
                ground (
                  arith,
                  lookup_or-given_values no_parameter ps d.name,
                  trim_space-eq-nil_iff (given_value ps d.name),
                ),
                rest.earlier,
              );
              required = rest.required;
              blank = rest.blank;
              reported = rest.reported;
            }
      ]

-- An error of the validation names the first required definition whose value is blank.
validate-err :
    (pm : ParameterManager) (e : Error)
    → validate pm ≡ err e
    → Missing pm.parameters pm.definitions e
unfolding validate
validate-err pm e h = check_definitions-err pm.parameters pm.definitions e h

-- What a result says of the parameters.
pub record IsValidation (pm : ParameterManager) (r : Result (Unit {0})) : Type 0 where
  pub valid_iff : (r ≡ ok tt) ↔ All (HasValue pm.parameters) pm.definitions
  pub missing : (e : Error) → r ≡ err e → Missing pm.parameters pm.definitions e

-- The validation succeeds exactly if every required definition has a value that holds a
-- character which is not white space, where of several parameters of one name the last one counts. An
-- error of it names the first required definition whose value is blank.
pub validate-IsValidation : (pm : ParameterManager) → IsValidation pm (validate pm)
validate-IsValidation pm = record { valid_iff = validate-ok_iff pm; missing = validate-err pm }
