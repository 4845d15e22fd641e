-- ===== src/Parameter/Secret/Stable.antt =====
-- A secret that was generated keeps its value. The laws state what the program relies on: the API
-- server does what it reports, and no other process writes the global secret in between.
use kube_bundler.Prelude.{String, ◌≡◌, ◌∙◌, sym, inl, inr, none, some, arith}
use kube_bundler.Prelude.{Option-cases}
use kube_bundler.Prelude.Int.{ℤ}
use mathlib.Core.Option.{some-injective}
use kube_bundler.Go.Io.{ok, continue, Result-cases}
use kube_bundler.Api.{GenerateSecret}
use kube_bundler.Cluster.Objects.{Secret}
use kube_bundler.Cluster.Clients.{SecretClient, Entropy}
use kube_bundler.Parameter.Secret.{
  secret_name, default_namespace, new_secret, secret_key, stored, assign, get_global_secret,
  generate_secret_value, add_secret, get_secret_value,
}
use kube_bundler.Parameter.Secret.{store_secret}
use kube_bundler.Parameter.Secret.Lawful.{value_at, IsLawful, stored-assign}

module _ {W Key : Type 0} (secrets : SecretClient W) (entropy : Entropy W Key)
    (L : IsLawful secrets entropy) where
  -- Every value that is stored in the first world is stored in the second one.
  abbrev pub Grows : W → W → Type 0
  Grows w w' =
      (j u : String) → value_at (L.content w) j ≡ some u → value_at (L.content w') j ≡ some u

  same→Grows : (w w' : W) → L.content w' ≡ L.content w → Grows w w'
  same→Grows w w' e j u h = rw e h

  none→Grows : (w w' : W) → L.content w ≡ none → Grows w w'
  none→Grows w w' e j u h = ground arith

  assign→Grows :
      (w w' : W) (s s' : Secret) (k v : String)
      → L.content w ≡ some s
      → stored s k ≡ none
      → assign s k v ≡ ok s'
      → L.content w' ≡ some s'
      → Grows w w'
  assign→Grows w w' s s' k v e fresh a e' j u h = ground (arith, stored-assign s s' k v j a)

  global-ok :
      (w : W) (s : Secret)
      → (get_global_secret secrets entropy w).0 ≡ ok s
      → L.content (get_global_secret secrets entropy w).1 ≡ some s
  unfolding get_global_secret
  global-ok w s h = ground (
    arith,
    L.get-ok w s,
    L.get-keeps w,
    L.create-ok new_secret (secrets.get default_namespace secret_name w).1,
  )

  global-Grows : (w : W) → Grows w (get_global_secret secrets entropy w).1
  unfolding get_global_secret
  global-Grows w j u h = ground (
    arith,
    L.get-keeps w,
    L.create-any new_secret (secrets.get default_namespace secret_name w).1,
  )

  generate-same :
      (format : String) (bytes bits : ℤ) (w : W)
      → L.content (generate_secret_value secrets entropy format bytes bits w).1 ≡ L.content w
  unfolding generate_secret_value
  generate-same format (ℤ.pos n) bits w = ground (arith, L.random-keeps n w, L.key-keeps bits w)
  generate-same format (ℤ.negsuc n) bits w = ground (arith, L.key-keeps bits w)

  -- The steps after the lookup failed: what is stored if they succeed, and whatever happens.
  module _ (s : Secret) (k : String) (w : W) (read : L.content w ≡ some s) where
    store_secret-stores :
        (value v : String)
        → (store_secret secrets entropy s k value w).0 ≡ ok v
        → value_at (L.content (store_secret secrets entropy s k value w).1) k ≡ some v
    unfolding store_secret
    store_secret-stores value v h = elim (Result-cases (assign s k value)) [
      | inl (s', a) ↦ ground (arith, a, L.update-ok s' w, stored-assign s s' k value k a)
      | inr (inl (e, a)) ↦ ground (arith, a)
      | inr (inr (why, a)) ↦ ground (arith, a)
    ]

    store_secret-Grows :
        (value : String) → stored s k ≡ none → Grows w (store_secret secrets entropy s k value w).1
    unfolding store_secret
    store_secret-Grows value fresh j u h = elim (Result-cases (assign s k value)) [
      | inl (s', a) ↦ ground (arith, a, L.update-any s' w, stored-assign s s' k value j a)
      | inr (inl (e, a)) ↦ ground (arith, a)
      | inr (inr (why, a)) ↦ ground (arith, a)
    ]

    abbrev generated : GenerateSecret → W
    generated g = (generate_secret_value secrets entropy g.format g.bytes g.bits w).1

  module _ (s : Secret) (k : String) (g : GenerateSecret) (w : W)
      (read : L.content w ≡ some s) where
    add_secret-stores :
        (v : String)
        → (add_secret secrets entropy s k g w).0 ≡ ok v
        → value_at (L.content (add_secret secrets entropy s k g w).1) k ≡ some v
    unfolding add_secret
    add_secret-stores v h =
        elim (Result-cases (generate_secret_value secrets entropy g.format g.bytes g.bits w).0) [
          | inl (value, e) ↦
              let same = generate-same g.format g.bytes g.bits w in
              rw (e, continue)
                (store_secret-stores s k (generated s k w read g) (same ∙ read) value v
                  (rw (e, continue) at h))
          | inr (inl (x, e)) ↦ ground (arith, e)
          | inr (inr (why, e)) ↦ ground (arith, e)
        ]

    add_secret-Grows : stored s k ≡ none → Grows w (add_secret secrets entropy s k g w).1
    unfolding add_secret
    add_secret-Grows fresh j u h =
        let same = generate-same g.format g.bytes g.bits w in
        let kept = same→Grows w (generated s k w read g) same j u h in
        elim (Result-cases (generate_secret_value secrets entropy g.format g.bytes g.bits w).0) [
          | inl (value, e) ↦
              rw (e, continue)
                (store_secret-Grows s k (generated s k w read g) (same ∙ read) value fresh j u kept)
          | inr (inl (x, e)) ↦ rw (e, continue) kept
          | inr (inr (why, e)) ↦ rw (e, continue) kept
        ]

  module _ (install name : String) (g : GenerateSecret) (w : W) where
    abbrev key : String
    key = secret_key install name

    -- With an API server that does what it reports, and no other writer of the global secret:
    -- whether the call returns a value, fails or panics, no stored secret is lost or changed.
    get_secret_value-Grows : Grows w (get_secret_value secrets entropy install name g w).1
    unfolding get_secret_value
    get_secret_value-Grows j u h =
        let kept = global-Grows w j u h in
        let w' = (get_global_secret secrets entropy w).1 in
        elim (Result-cases (get_global_secret secrets entropy w).0) [
          | inl (s, e) ↦ elim (Option-cases (stored s key)) [
            | inl fresh ↦
                rw (e, continue)
                  (rw (fresh, continue)
                    (add_secret-Grows s key g w' (global-ok w s e) fresh j u kept))
            | inr (v, there) ↦ rw (e, continue) (rw (there, continue) kept)
          ]
          | inr (inl (x, e)) ↦ rw (e, continue) kept
          | inr (inr (why, e)) ↦ rw (e, continue) kept
        ]

    -- With an API server that does what it reports, and no other writer of the global secret: a
    -- returned value is the one that is stored under the key of the install and the parameter.
    pub get_secret_value-stores :
        (v : String)
        → (get_secret_value secrets entropy install name g w).0 ≡ ok v
        → value_at (L.content (get_secret_value secrets entropy install name g w).1) key ≡ some v
    unfolding get_secret_value
    get_secret_value-stores v h =
        let w' = (get_global_secret secrets entropy w).1 in
        elim (Result-cases (get_global_secret secrets entropy w).0) [
          | inl (s, e) ↦ elim (Option-cases (stored s key)) [
            | inl fresh ↦
                rw (e, continue)
                  (rw (fresh, continue)
                    (add_secret-stores s key g w' (global-ok w s e) v
                      (rw (fresh, continue) at (rw (e, continue) at h))))
            | inr (u, there) ↦
                let same = rw (there, continue) at (rw (e, continue) at h) in
                rw (e, continue)
                  (rw (there, continue) (ground (arith, same, there, global-ok w s e)))
          ]
          | inr (inl (x, e)) ↦ ground (arith, e)
          | inr (inr (why, e)) ↦ ground (arith, e)
        ]

  Grows-trans : (u v w : W) → Grows u v → Grows v w → Grows u w
  Grows-trans u v w g h j x e = h j x (g j x e)

  -- With an API server that does what it reports, and no other writer of the global secret during
  -- a call: once a call for a parameter of an install has returned a secret, a later call for the
  -- same parameter that returns returns the same one. In between any changes may be made that keep
  -- what is stored, such as further calls.
  pub get_secret_value-stable :
      (install name : String) (g g' : GenerateSecret) (w w' : W) (v v' : String)
      → (get_secret_value secrets entropy install name g w).0 ≡ ok v
      → Grows (get_secret_value secrets entropy install name g w).1 w'
      → (get_secret_value secrets entropy install name g' w').0 ≡ ok v'
      → v' ≡ v
  get_secret_value-stable install name g g' w w' v v' first between second =
      let k = secret_key install name in
      let there = between k v (get_secret_value-stores install name g w v first) in
      let still = get_secret_value-Grows install name g' w' k v there in
      some-injective v' v (sym (get_secret_value-stores install name g' w' v' second) ∙ still)
