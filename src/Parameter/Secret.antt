-- ===== src/Parameter/Secret.antt =====
-- Generated secrets: `getSecretValue`, `getGlobalSecret`, `generateSecretValue` and the functions
-- below it. The bytes of a secret are kept as the text that they are converted from and to.
pub mod Lawful
pub mod Stable
use kube_bundler.Prelude.{String, ◌<>◌, Option, none, some, List, [], ◌∷◌, ◌==◌, if◌then◌else◌}
use kube_bundler.Prelude.Dict.{Dict, lookup, insert}
use kube_bundler.Prelude.Int.{ℤ}
use kube_bundler.Go.Errors.{Error, errorf, text, wrapped}
use kube_bundler.Go.Io.{Result, ok, err, panic, Io, pure, fail, crash, annotate, lift, ◌>>=◌, ◌>>◌}
use kube_bundler.Api.{GenerateSecret}
use kube_bundler.Cluster.Objects.{Secret}
use kube_bundler.Cluster.Clients.{SecretClient, Entropy}
use kube_bundler.Parameter.Hex.{hex_encode}

abbrev pub secret_name : String
secret_name = "global-secret"

abbrev pub default_namespace : String
default_namespace = "default"

-- `secret.Data[key]`, which finds nothing in a nil map.
unfoldable pub stored : Secret → String → Option String
stored secret key = elim secret.entries [ none ↦ none | some d ↦ lookup key d ]

-- `secret.Data[key] = value`, which panics on a nil map.
unfoldable pub assign : Secret → String → String → Result Secret
assign secret key value = elim secret.entries [
  | none ↦ panic "assignment to entry in nil map"
  | some d ↦ ok (record secret { entries = some (insert key value d) })
]

abbrev pub secret_key : String → String → String
secret_key install_name parameter_name = install_name <> ("." <> parameter_name)

abbrev pub new_secret : Secret
new_secret = record { name = secret_name; namespace = default_namespace; entries = some [] }

module _ {W Key : Type 0} (secrets : SecretClient W) (entropy : Entropy W Key) where
  secret_or_create : Result Secret → Io W Secret
  secret_or_create (ok secret) = pure secret
  secret_or_create (panic why) = crash why
  secret_or_create (err e) = do
    annotate "Failed to create global secret" [] (secrets.create default_namespace new_secret)
    pure new_secret

  -- Any error of the read is taken to mean that the secret does not exist.
  unfoldable pub get_global_secret : Io W Secret
  unfolding secret_or_create
  get_global_secret w =
      let (r, w') = secrets.get default_namespace secret_name w in secret_or_create r w'

  generate_random_private_key : ℤ → Io W Key
  generate_random_private_key bits = do
    key ← annotate "Failed to generate private key" [] (entropy.generate_key bits)
    elim (entropy.validate_key key) [
      | none ↦ pure key
      | some e ↦ fail (wrapped "Failed to validate private key" [] e)
    ]

  encode_private_key_to_pem : Key → Io W String
  encode_private_key_to_pem key = elim (entropy.pem_encode "RSA PRIVATE KEY" key) [
    | none ↦ fail (errorf "Unable to PEM-encode private key" [])
    | some pem ↦ pure pem
  ]

  generate_pem_encoded_key : ℤ → Io W String
  unfolding generate_random_private_key encode_private_key_to_pem
  generate_pem_encoded_key bits = do
    key ← generate_random_private_key bits
    encode_private_key_to_pem key

  -- `make([]byte, bytes)` panics for a negative length.
  random_hex : ℤ → Io W String
  random_hex (ℤ.pos n) = do
    random ← annotate "Failed to generate random value" [] (entropy.random_bytes n)
    pure (hex_encode random)
  random_hex (ℤ.negsuc n) = crash "makeslice: len out of range"

  unfoldable pub generate_secret_value : String → ℤ → ℤ → Io W String
  unfolding random_hex generate_pem_encoded_key
  generate_secret_value format bytes bits =
      if format == "hex"
      then random_hex bytes
      else if format == "rsa"
      then annotate "Failed to generate RSA key" [] (generate_pem_encoded_key bits)
      else fail (errorf "Unknown format: %s" (text format ∷ []))

  unfoldable pub store_secret : Secret → String → String → Io W String
  store_secret secret key value = do
    secret' ← lift (assign secret key value)
    annotate "Failed to update global secret" [] (secrets.update default_namespace secret')
    pure value

  unfoldable pub add_secret : Secret → String → GenerateSecret → Io W String
  add_secret secret key g = do
    value ←
        annotate "Failed to generate secret value" []
          (generate_secret_value g.format g.bytes g.bits)
    store_secret secret key value

  unfoldable pub get_secret_value : String → String → GenerateSecret → Io W String
  unfolding add_secret store_secret
  get_secret_value install_name parameter_name g = do
    secret ← annotate "Failed to get global secret" [] get_global_secret
    let key = secret_key install_name parameter_name
    elim (stored secret key) [ some value ↦ pure value | none ↦ add_secret secret key g ]
