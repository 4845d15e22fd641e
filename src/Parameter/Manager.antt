-- ===== src/Parameter/Manager.antt =====
-- The parameter manager and its methods.
use kube_bundler.Prelude.{String, Bool, ◌&&◌, ◌||◌, not, List, [], ◌∷◌, ◌++◌}
use kube_bundler.Prelude.{◌==◌, if◌then◌else◌}
use kube_bundler.Prelude.Dict.{Dict, insert, lookup_or}
use kube_bundler.Go.Errors.{errorf, text}
use kube_bundler.Go.Io.{Result, ok, err, Io, pure, annotate, ◌>>=◌}
use kube_bundler.Go.Text.{trim_space}
use kube_bundler.Api.{GenerateSecret, ParameterSpec, ParameterDefinitionSpec, no_secret}
use kube_bundler.Cluster.Clients.{SecretClient, Entropy}
use kube_bundler.Parameter.Secret.{get_secret_value}

pub record ParameterDesc : Type 0 where
  pub value : String
  pub default : String
  pub description : String

pub record ParameterManager : Type 0 where
  pub install_name : String
  pub definitions : List ParameterDefinitionSpec
  pub parameters : List ParameterSpec

module _ {W Key : Type 0} (secrets : SecretClient W) (entropy : Entropy W Key) where
  -- The two branches of each loop's body: a generated secret, or the plain value.
  unfoldable pub value_of : String → String → GenerateSecret → String → Io W String
  value_of install_name name g plain =
      if g.format == ""
      then pure plain
      else annotate "Failed to get secret value" []
          (get_secret_value secrets entropy install_name name g)

  unfoldable pub merge_definitions :
      String → Dict String → List ParameterDefinitionSpec → Io W (Dict String)
  merge_definitions install_name m [] = pure m
  merge_definitions install_name m (d ∷ ds) = do
    value ← value_of install_name d.name d.generate_secret d.default
    merge_definitions install_name (insert d.name value m) ds

  unfoldable pub merge_parameters : String → Dict String → List ParameterSpec → Io W (Dict String)
  merge_parameters install_name m [] = pure m
  merge_parameters install_name m (p ∷ ps) = do
    value ← value_of install_name p.name p.generate_secret p.value
    merge_parameters install_name (insert p.name value m) ps

  unfoldable pub get_merged_map : ParameterManager → Io W (Dict String)
  get_merged_map pm = do
    m ← merge_definitions pm.install_name [] pm.definitions
    merge_parameters pm.install_name m pm.parameters

abbrev no_desc : ParameterDesc
no_desc = record { value = ""; default = ""; description = "" }

unfoldable pub describe_definitions :
    Dict ParameterDesc → List ParameterDefinitionSpec → Dict ParameterDesc
describe_definitions m [] = m
describe_definitions m (d ∷ ds) =
    describe_definitions
      (insert d.name
        (record { value = d.default; default = d.default; description = d.description }) m)
      ds

unfoldable pub describe_parameters : Dict ParameterDesc → List ParameterSpec → Dict ParameterDesc
describe_parameters m [] = m
describe_parameters m (p ∷ ps) =
    let desc = lookup_or no_desc p.name m in
    describe_parameters (insert p.name (record desc { value = p.value }) m) ps

unfoldable pub get_parameter_desc : ParameterManager → Dict ParameterDesc
unfolding describe_definitions describe_parameters
get_parameter_desc pm = describe_parameters (describe_definitions [] pm.definitions) pm.parameters

-- The inner loop of `MergeAdditionalParameters`. It also assigns to the loop's variable, which is
-- a copy of the element: nothing is written to the list.
unfoldable pub has_name : String → List ParameterSpec → Bool
has_name name [] = Bool.false
has_name name (p ∷ ps) = p.name == name || has_name name ps

abbrev pub fresh : ParameterSpec → ParameterSpec
fresh a = record { name = a.name; value = a.value; generate_secret = no_secret }

-- The outer loop. `found` is declared before it and is never reset.
unfoldable pub collect_additional :
    Bool → List ParameterSpec → List ParameterSpec → List ParameterSpec
unfolding has_name
collect_additional found source [] = []
collect_additional found source (a ∷ more) =
    let found' = found || has_name a.name source in
    let rest = collect_additional found' source more in if not found' then fresh a ∷ rest else rest

unfoldable pub merge_additional_parameters :
    ParameterManager → List ParameterSpec → List ParameterSpec
unfolding collect_additional
merge_additional_parameters pm additional =
    pm.parameters ++ collect_additional Bool.false pm.parameters additional

unfoldable pub given_values : Dict ParameterSpec → List ParameterSpec → Dict ParameterSpec
given_values m [] = m
given_values m (p ∷ ps) = given_values (insert p.name (fresh p) m) ps

abbrev pub no_parameter : ParameterSpec
no_parameter = record { name = ""; value = ""; generate_secret = no_secret }

unfoldable pub check_definitions :
    Dict ParameterSpec → List ParameterDefinitionSpec → Result (Unit {0})
check_definitions m [] = ok tt
check_definitions m (d ∷ ds) =
    let spec = lookup_or no_parameter d.name m in
    let rest = check_definitions m ds in
    if d.required && trim_space spec.value == ""
    then err (errorf "required parameter '%s' not set" (text d.name ∷ []))
    else rest

unfoldable pub validate : ParameterManager → Result (Unit {0})
unfolding given_values check_definitions
validate pm = check_definitions (given_values [] pm.parameters) pm.definitions
