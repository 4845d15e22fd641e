-- ===== src/Go/Each.antt =====
-- A loop whose body changes the world: what each of its rounds did, one after another.
use kube_bundler.Prelude.{◌≡◌, List, [], ◌∷◌}

-- `R a w u` says what a round for `a` did between two worlds.
abbrev pub Each : {W A : Type 0} → (A → W → W → Type 0) → List A → W → W → Type 0
Each R [] w w' = w ≡ w'
Each {W} R (a ∷ rest) w w' = (u : W) × R a w u × Each R rest u w'

pub Each-map :
    {W A : Type 0} {R S : A → W → W → Type 0}
    → ((a : A) (w u : W) → R a w u → S a w u)
    → (xs : List A) (w w' : W) → Each R xs w w'
    → Each S xs w w'
Each-map f [] w w' h = h
Each-map f (a ∷ rest) w w' (u, r, h) = (u, f a w u r, Each-map f rest u w' h)
