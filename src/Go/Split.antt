-- ===== src/Go/Split.antt =====
-- `strings.Split(s, " ")`.
use Prim.Native.Char.{Char, code}
use Prim.Native.String.{[], ◌∷◌}
use kube_bundler.Prelude.{String, List, ◌≡◌, refl, true, false, eqb, if◌then◌else◌}
use kube_bundler.Prelude

-- The character belongs to the first part.
unfoldable pub add_to_first : Char → List String → List String
add_to_first c Prelude.[] = Prelude.[]
add_to_first c (Prelude.◌∷◌ part parts) = Prelude.◌∷◌ (c ∷ part) parts

unfoldable pub split_on_space : String → List String
unfolding add_to_first
split_on_space [] = Prelude.◌∷◌ [] Prelude.[]
split_on_space (c ∷ s) =
    let parts = split_on_space s in
    if eqb (code c) 0x20 then Prelude.◌∷◌ [] parts else add_to_first c parts
