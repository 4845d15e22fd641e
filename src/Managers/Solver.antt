-- ===== src/Managers/Solver.antt =====
-- The dependency solver of github.com/quipo/dependencysolver, which is outside the program: a solver
-- is a function from entries to layers, with none for nil.
pub mod Order
use kube_bundler.Prelude.{String, Option, some, List, [], ◌∷◌, ◌++◌, ◌≡◌, All, Memᴰ, flatten}

-- `dependencysolver.Entry`
pub record Entry : Type 0 where
  pub id : String
  pub deps : List String

-- What the entry of that name depends on is done.
abbrev pub Ready : List Entry → List String → String → Type 0
Ready entries finished name =
    All (λ (e : Entry). e.id ≡ name → All (λ d. Memᴰ d finished) e.deps) entries

-- Each layer depends on the layers before it alone.
abbrev pub Layered : List Entry → List String → List (List String) → Type 0
Layered entries finished [] = Unit
Layered entries finished (layer ∷ layers) =
    All (Ready entries finished) layer × Layered entries (layer ++ finished) layers

-- What the dependency solver promises of the layers that it returns.
pub record Sound (solve : List Entry → Option (List (List String))) : Type 0 where
  pub layered :
      (es : List Entry) (layers : List (List String))
      → solve es ≡ some layers
      → Layered es [] layers
  pub complete :
      (es : List Entry) (layers : List (List String))
      → solve es ≡ some layers
      → All (λ (e : Entry). Memᴰ e.id (flatten layers)) es
