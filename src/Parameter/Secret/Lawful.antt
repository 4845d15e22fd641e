-- ===== src/Parameter/Secret/Lawful.antt =====
-- What the proofs ask of an API server that keeps the global secret.
use kube_bundler.Prelude.{
  String, ◌≡◌, ◌⊎◌, inl, inr, Option, none, some, arith, ◌==◌, if◌then◌else◌, ℕ,
}
use kube_bundler.Prelude.{Option-cases}
use kube_bundler.Prelude.Dict.{lookup-insert}
use kube_bundler.Prelude.Int.{ℤ}
use kube_bundler.Go.Io.{ok}
use kube_bundler.Cluster.Objects.{Secret}
use kube_bundler.Cluster.Clients.{SecretClient, Entropy}
use kube_bundler.Parameter.Secret.{secret_name, default_namespace, stored, assign}

abbrev pub value_at : Option Secret → String → Option String
value_at none k = none
value_at (some s) k = stored s k

pub record IsLawful {W Key : Type 0} (secrets : SecretClient W) (entropy : Entropy W Key)
    : Type 0 where
  pub content : W → Option Secret  -- the global secret, if it exists
  pub get-ok :
      (w : W) (s : Secret)
      → (secrets.get default_namespace secret_name w).0 ≡ ok s
      → content w ≡ some s
  pub get-keeps : (w : W) → content (secrets.get default_namespace secret_name w).1 ≡ content w
  pub create-ok :
      (s : Secret) (w : W)
      → (secrets.create default_namespace s w).0 ≡ ok tt
      → content (secrets.create default_namespace s w).1 ≡ some s
  -- An object that exists is not created again, and a failed write is made or not.
  pub create-any :
      (s : Secret) (w : W)
      → (content w ≡ none) ⊎ (content (secrets.create default_namespace s w).1 ≡ content w)
  pub update-ok :
      (s : Secret) (w : W)
      → (secrets.update default_namespace s w).0 ≡ ok tt
      → content (secrets.update default_namespace s w).1 ≡ some s
  pub update-any :
      (s : Secret) (w : W)
      → (content (secrets.update default_namespace s w).1 ≡ some s)
        ⊎ (content (secrets.update default_namespace s w).1 ≡ content w)
  pub random-keeps : (n : ℕ) (w : W) → content (entropy.random_bytes n w).1 ≡ content w
  pub key-keeps : (bits : ℤ) (w : W) → content (entropy.generate_key bits w).1 ≡ content w

pub stored-assign :
    (s s' : Secret) (k v j : String)
    → assign s k v ≡ ok s'
    → stored s' j ≡ (if j == k then some v else stored s j)
unfolding stored assign
stored-assign s s' k v j a = elim (Option-cases s.entries) [
  | inl e ↦ ground arith
  | inr (d, e) ↦ ground (arith, lookup-insert j k v d)
]
