-- ===== src/Tests/Parameters.antt =====
-- Concrete parameters, and a cluster that holds nothing but the global secret.
use kube_bundler.Prelude.{
  ℕ, zero, suc, String, ◌≡◌, refl, inl, inr, Option, none, some, List, [], ◌∷◌, String-discrete,
  true, false,
}
use kube_bundler.Prelude.Dict.{Dict, lookup, insert}
use kube_bundler.Prelude.Int.{ℤ}
use kube_bundler.Go.Errors.{Error, Kind, leaf, errorf}
use kube_bundler.Go.Io.{Result, ok, err}
use kube_bundler.Api.{GenerateSecret, ParameterSpec, ParameterDefinitionSpec, no_secret}
use kube_bundler.Cluster.Objects.{Secret}
use kube_bundler.Cluster.Clients.{SecretClient, Entropy}
use kube_bundler.Parameter.Secret.{
  get_secret_value, get_global_secret, stored, assign, generate_secret_value,
}
use kube_bundler.Parameter.Hex.{hex_encode}
use kube_bundler.Parameter.Secret.Stable.{get_secret_value-stable}
use kube_bundler.Parameter.Secret.Lawful.{IsLawful}
use kube_bundler.Parameter.Manager.{ParameterManager, get_merged_map, validate}
use kube_bundler.Parameter.Last.{or_else, last_of}
use kube_bundler.Parameter.Merged.{resolve_parameter, resolve_definition, lookup-get_merged_map}
use kube_bundler.Parameter.Required.{IsValidation, validate-IsValidation}
use kube_bundler.Prelude.{◌⊎◌, arith}

-- The global secret, if it has been created.
abbrev World : Type 0
World = Option Secret

abbrev absent : Error
absent = leaf Kind.api_not_found "not found" []

abbrev read : World → Result Secret
read none = err absent
read (some s) = ok s

abbrev written : World → Result (Unit {0})
written none = ok tt
written (some _) = err (errorf "exists" [])

abbrev put_new : Secret → World → World
put_new s none = some s
put_new s (some old) = some old

abbrev world_secrets : SecretClient World
world_secrets = record {
  get = λ namespace name w. (read w, w);
  create = λ namespace s w. (written w, put_new s w);
  update = λ namespace s w. (ok tt, some s);
}

abbrev bytes_of : ℕ → List ℕ
bytes_of zero = []
bytes_of (suc n) = 10 ∷ bytes_of n

abbrev world_entropy : Entropy World (Unit {0})
world_entropy = record {
  random_bytes = λ n w. (ok (bytes_of n), w);
  generate_key = λ bits w. (ok tt, w);
  validate_key = λ k. none;
  pem_encode = λ title k. some title;
}

read-ok : (w : World) (s : Secret) → read w ≡ ok s → w ≡ some s
read-ok none s h = ground arith
read-ok (some t) s h = ground arith

written-ok : (w : World) (s : Secret) → written w ≡ ok tt → put_new s w ≡ some s
written-ok none s h = refl
written-ok (some t) s h = ground arith

put_new-cases : (w : World) (s : Secret) → (w ≡ none) ⊎ (put_new s w ≡ w)
put_new-cases none s = inl refl
put_new-cases (some t) s = inr refl

world-IsLawful : IsLawful world_secrets world_entropy
world-IsLawful = record {
  content = λ w. w;
  get-ok = λ w s h. read-ok w s h;
  get-keeps = λ w. refl;
  create-ok = λ s w h. written-ok w s h;
  create-any = λ s w. put_new-cases w s;
  update-ok = λ s w h. refl;
  update-any = λ s w. inl refl;
  random-keeps = λ n w. refl;
  key-keeps = λ bits w. refl;
}

abbrev hex_2 : GenerateSecret
hex_2 = record { format = "hex"; bytes = ℤ.pos 2; bits = ℤ.pos 0 }

abbrev password : ParameterDefinitionSpec
password = record {
  name = "password";
  default = "";
  description = "";
  required = false;
  generate_secret = hex_2;
}

abbrev domain : ParameterDefinitionSpec
domain = record {
  name = "domain";
  default = "local";
  description = "";
  required = true;
  generate_secret = no_secret;
}

abbrev given : String → String → ParameterSpec
given name value = record { name = name; value = value; generate_secret = no_secret }

abbrev manager : ParameterManager
manager = record {
  install_name = "redis";
  definitions = password ∷ domain ∷ [];
  parameters = given "domain" "example" ∷ [];
}

abbrev global : Secret
global = record {
  name = "global-secret";
  namespace = "default";
  entries = some (("redis.password", "0a0a") ∷ []);
}

lookup-get_merged_map_example :
    (m : Dict String) × (get_merged_map world_secrets world_entropy manager (some global)
      ≡ (ok m, some global))
    × ((k : String)
        → lookup k m
          ≡ or_else
              (last_of (λ p. p.name) (resolve_parameter global "redis") k manager.parameters)
              (last_of (λ d. d.name) (resolve_definition global "redis") k manager.definitions))
unfolding stored lookup String-discrete
lookup-get_merged_map_example =
    lookup-get_merged_map world_secrets world_entropy global (some global) manager refl
      (inr ("0a0a", refl), (inl refl, tt)) (inl refl, tt)

abbrev redis_password : World → Result String × World
redis_password = get_secret_value world_secrets world_entropy "redis" "password" hex_2

abbrev after_first : World
after_first = (redis_password none).1

abbrev hex_value : String
hex_value = "0a0a"

get_secret_value-stable_example : hex_value ≡ hex_value
unfolding get_secret_value get_global_secret stored lookup generate_secret_value String-discrete
    assign hex_encode insert world-IsLawful
get_secret_value-stable_example =
    get_secret_value-stable world_secrets world_entropy world-IsLawful "redis" "password" hex_2
      hex_2 none after_first hex_value hex_value refl (λ j u h. h) refl

abbrev blank_manager : ParameterManager
blank_manager = record manager { parameters = given "domain" " " ∷ [] }

abbrev additional : List ParameterSpec
additional = given "port" "1" ∷ given "domain" "other" ∷ given "user" "me" ∷ []

validate-IsValidation_example : IsValidation manager (validate manager)
validate-IsValidation_example = validate-IsValidation manager
