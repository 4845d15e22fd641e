-- ===== src/Go/Contains.antt =====
-- `strings.Contains`.
use Prim.Native.Char.{code}
use Prim.Native.String.{[], ◌∷◌}
use kube_bundler.Prelude.{String, Bool, true, false, ◌&&◌, ◌||◌, eqb, refl, ◌≡◌}

unfoldable pub has_prefix : String → String → Bool
has_prefix s [] = true
has_prefix [] (d ∷ t) = false
has_prefix (c ∷ s) (d ∷ t) = eqb (code c) (code d) && has_prefix s t

unfoldable pub contains : String → String → Bool
unfolding has_prefix
contains [] t = has_prefix [] t
contains (c ∷ s) t = has_prefix (c ∷ s) t || contains s t

contains_runs : contains "https://vault:80" "vault" ≡ true
unfolding contains
contains_runs = refl
