-- ===== src/Api/Registry.antt =====
-- `ClusterUrl` and `SanitizedRegistryName` of api/v1alpha1/registry_types.go.
use Prim.Native.Char.{Char, code}
use mathlib.Core.List.{foldl}
use kube_bundler.Prelude.{String, ◌<>◌, ◌≡◌, ◌≢◌, refl, List, [], ◌∷◌, arith, eqb, All}
use kube_bundler.Prelude.{if◌then◌else◌, Bool-cases, inl, inr, sym}
use kube_bundler.Prelude.Dict.{Dict}

pub record RegistrySpec : Type 0 where
  pub image : String
  pub flavor : String
  pub node_selector : Dict String
  pub host_path : String

pub record Registry : Type 0 where
  pub name : String
  pub namespace : String
  pub spec : RegistrySpec

replace_char : Char → Char → Char
replace_char c old = if eqb (code c) (code old) then "-" else c

-- `strings.ReplaceAll(s, old, "-")` where `old` is one character.
replace_all : String → Char → String
unfolding replace_char
replace_all String.[] old = String.[]
replace_all (String.◌∷◌ c s) old = String.◌∷◌ (replace_char c old) (replace_all s old)

abbrev pub invalid_dns_chars : List Char
invalid_dns_chars = "." ∷ "_" ∷ "^" ∷ "$" ∷ "@" ∷ "!" ∷ "+" ∷ "=" ∷ "(" ∷ ")" ∷ "&" ∷ []

unfoldable pub sanitized_name : String → String
unfolding replace_all replace_char
sanitized_name name = foldl replace_all name invalid_dns_chars

unfoldable pub sanitized_registry_name : Registry → String
unfolding sanitized_name
sanitized_registry_name r = sanitized_name r.name

unfoldable pub cluster_url : Registry → String
unfolding sanitized_registry_name
cluster_url r = "localhost:6000/registry-" <> sanitized_registry_name r

-- No character of the text has the code of `d`.
abbrev pub Lacks : Char → String → Type 0
Lacks d String.[] = Unit
Lacks d (String.◌∷◌ c s) = (code c ≢ code d) × Lacks d s

-- What one replacement removes, what it keeps away, and what it leaves alone.
replace_char-removes : (c d : Char) → code d ≢ 45 → code (replace_char c d) ≢ code d
unfolding replace_char
replace_char-removes c d h = elim (Bool-cases (eqb (code c) (code d))) [
  | inl e ↦ rw e (λ p. h (sym p))
  | inr e ↦ rw e (λ p. ground arith)
]

replace_char-keeps :
    (c d e : Char) → code d ≢ 45 → code c ≢ code d → code (replace_char c e) ≢ code d
unfolding replace_char
replace_char-keeps c d e h l = elim (Bool-cases (eqb (code c) (code e))) [
  | inl same ↦ rw same (λ p. h (sym p))
  | inr other ↦ rw other l
]

replace_char-id : (c d : Char) → code c ≢ code d → replace_char c d ≡ c
unfolding replace_char
replace_char-id c d h = elim (Bool-cases (eqb (code c) (code d))) [
  | inl e ↦ absurd (h (ground arith))
  | inr e ↦ rw e
]

replace_all-removes : (s : String) (d : Char) → code d ≢ 45 → Lacks d (replace_all s d)
unfolding replace_all
replace_all-removes String.[] d h = tt
replace_all-removes (String.◌∷◌ c s) d h = (replace_char-removes c d h, replace_all-removes s d h)

replace_all-keeps : (s : String) (d e : Char) → code d ≢ 45 → Lacks d s → Lacks d (replace_all s e)
unfolding replace_all
replace_all-keeps String.[] d e h l = tt
replace_all-keeps (String.◌∷◌ c s) d e h l =
    (replace_char-keeps c d e h l.0, replace_all-keeps s d e h l.1)

replace_all-id : (s : String) (d : Char) → Lacks d s → replace_all s d ≡ s
unfolding replace_all
replace_all-id String.[] d h = refl
replace_all-id (String.◌∷◌ c s) d h = cc (replace_char-id c d h.0, replace_all-id s d h.1)

replace_each-keeps :
    (ds : List Char) (s : String) (d : Char)
    → code d ≢ 45
    → Lacks d s
    → Lacks d (foldl replace_all s ds)
replace_each-keeps [] s d h l = l
replace_each-keeps (e ∷ ds) s d h l =
    replace_each-keeps ds (replace_all s e) d h (replace_all-keeps s d e h l)

replace_each-removes :
    (ds : List Char) (s : String)
    → All (λ d. code d ≢ 45) ds
    → All (λ d. Lacks d (foldl replace_all s ds)) ds
replace_each-removes [] s h = tt
replace_each-removes (d ∷ ds) s h = (
  replace_each-keeps ds (replace_all s d) d h.0 (replace_all-removes s d h.0),
  replace_each-removes ds (replace_all s d) h.1,
)

replace_each-id :
    (ds : List Char) (s : String) → All (λ d. Lacks d s) ds → foldl replace_all s ds ≡ s
replace_each-id [] s h = refl
replace_each-id (d ∷ ds) s h = rw (replace_all-id s d h.0) (replace_each-id ds s h.1)

-- The sanitized name of a registry has none of the characters that are replaced, and to sanitize
-- it again changes nothing.
sanitized_name-clean :
    (name : String)
    → All (λ d. Lacks d (sanitized_name name)) invalid_dns_chars
      × (sanitized_name (sanitized_name name) ≡ sanitized_name name)
unfolding sanitized_name
sanitized_name-clean name =
    let clean = replace_each-removes invalid_dns_chars name (omega arith) in
    (clean, replace_each-id invalid_dns_chars (foldl replace_all name invalid_dns_chars) clean)
