-- ===== src/Parameter/Merged.antt =====
-- What `GetMergedMap` returns once every secret that it needs exists.
use kube_bundler.Prelude.{String, ◌≡◌, refl, ◌⊎◌, none, some, List, [], ◌∷◌, arith, All}
use kube_bundler.Prelude.{◌==◌, if◌then◌else◌, inl, inr, String-discrete}
use mathlib.Core.Logic.{if_pos, if_neg}
use kube_bundler.Prelude.Dict.{Dict, lookup, insert, lookup-nil}
use kube_bundler.Go.Io.{ok, continue}
use kube_bundler.Api.{GenerateSecret, ParameterSpec, ParameterDefinitionSpec}
use kube_bundler.Cluster.Objects.{Secret}
use kube_bundler.Cluster.Clients.{SecretClient, Entropy}
use kube_bundler.Parameter.Last.{or_else, last_of, insert_all, lookup-insert_all}
use kube_bundler.Parameter.Secret.{
  secret_name, default_namespace, secret_key, stored, get_global_secret, get_secret_value,
}
use kube_bundler.Parameter.Manager.{
  ParameterManager, value_of, merge_definitions, merge_parameters, get_merged_map,
}

-- The value of an entry under the secret `s`: the stored one if the entry is generated.
unfoldable pub resolve : Secret → String → String → GenerateSecret → String → String
resolve s install name g plain =
    if g.format == ""
    then plain
    else elim (stored s (secret_key install name)) [ none ↦ "" | some v ↦ v ]

-- The entry is plain, or its secret is stored.
abbrev pub IsReady : Secret → String → String → GenerateSecret → Type 0
IsReady s install name g =
    (g.format ≡ "") ⊎ ((v : String) × (stored s (secret_key install name) ≡ some v))

abbrev pub resolve_definition : Secret → String → ParameterDefinitionSpec → String
resolve_definition s install d = resolve s install d.name d.generate_secret d.default

abbrev pub resolve_parameter : Secret → String → ParameterSpec → String
resolve_parameter s install p = resolve s install p.name p.generate_secret p.value

module _ {W Key : Type 0} (secrets : SecretClient W) (entropy : Entropy W Key) where
  module _ (s : Secret) (w : W) (install : String)
      (read : secrets.get default_namespace secret_name w ≡ (ok s, w)) where
    get_global_secret-read : get_global_secret secrets entropy w ≡ (ok s, w)
    unfolding get_global_secret
    get_global_secret-read = rw read

    get_secret_value-stored :
        (name : String) (g : GenerateSecret) (v : String)
        → stored s (secret_key install name) ≡ some v
        → get_secret_value secrets entropy install name g w ≡ (ok v, w)
    unfolding get_secret_value
    get_secret_value-stored name g v e = rw get_global_secret-read (rw (e, continue))

    value_of-ready :
        (name : String) (g : GenerateSecret) (plain : String)
        → IsReady s install name g
        → value_of secrets entropy install name g plain w ≡ (ok (resolve s install name g plain), w)
    unfolding value_of resolve
    value_of-ready name g plain ready = elim (String-discrete g.format "") [
      | yes p ↦ rw (if_pos _ p)
      | no n ↦ elim ready [
        | inl p ↦ absurd (n p)
        | inr (v, e) ↦ rw (if_neg _ n, get_secret_value-stored name g v e, e)
      ]
    ]

    merge_definitions-ready :
        (m : Dict String) (ds : List ParameterDefinitionSpec)
        → All (λ d. IsReady s install d.name d.generate_secret) ds
        → merge_definitions secrets entropy install m ds w
          ≡ (ok (insert_all (λ d. d.name) (resolve_definition s install) m ds), w)
    unfolding merge_definitions insert_all
    merge_definitions-ready m [] h = refl
    merge_definitions-ready m (d ∷ ds) h =
        rw (value_of-ready d.name d.generate_secret d.default h.0)
          (merge_definitions-ready (insert d.name (resolve_definition s install d) m) ds h.1)

    merge_parameters-ready :
        (m : Dict String) (ps : List ParameterSpec)
        → All (λ p. IsReady s install p.name p.generate_secret) ps
        → merge_parameters secrets entropy install m ps w
          ≡ (ok (insert_all (λ p. p.name) (resolve_parameter s install) m ps), w)
    unfolding merge_parameters insert_all
    merge_parameters-ready m [] h = refl
    merge_parameters-ready m (p ∷ ps) h =
        rw (value_of-ready p.name p.generate_secret p.value h.0)
          (merge_parameters-ready (insert p.name (resolve_parameter s install p) m) ps h.1)

  -- Where the global secret can be read and every generated parameter has its secret, the merged
  -- map is returned, nothing changes, and a name has the value of the last parameter of that name,
  -- else of the last definition of that name, else none. A generated one has its stored secret.
  pub lookup-get_merged_map :
      (s : Secret) (w : W) (pm : ParameterManager)
      → secrets.get default_namespace secret_name w ≡ (ok s, w)
      → All (λ d. IsReady s pm.install_name d.name d.generate_secret) pm.definitions
      → All (λ p. IsReady s pm.install_name p.name p.generate_secret) pm.parameters
      → (m : Dict String) × (get_merged_map secrets entropy pm w ≡ (ok m, w))
        × ((k : String)
            → lookup k m
              ≡ or_else
                  (last_of (λ p. p.name) (resolve_parameter s pm.install_name) k pm.parameters)
                  (last_of (λ d. d.name) (resolve_definition s pm.install_name) k pm.definitions))
  unfolding get_merged_map
  lookup-get_merged_map s w pm read hd hp =
      let m = insert_all (λ d. d.name) (resolve_definition s pm.install_name) [] pm.definitions in
      let m' = insert_all (λ p. p.name) (resolve_parameter s pm.install_name) m pm.parameters in
      (
        m',
        rw (merge_definitions-ready s w pm.install_name read [] pm.definitions hd)
            (merge_parameters-ready s w pm.install_name read m pm.parameters hp),
        λ k. ground (
          arith,
          lookup-insert_all (λ (p : ParameterSpec). p.name) (resolve_parameter s pm.install_name) k
              m pm.parameters,
          lookup-insert_all (λ (d : ParameterDefinitionSpec). d.name)
              (resolve_definition s pm.install_name) k [] pm.definitions,
          lookup-nil {V = String} k,
        ),
      )
