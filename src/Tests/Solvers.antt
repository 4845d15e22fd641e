-- ===== src/Tests/Solvers.antt =====
-- A dependency solver that keeps its promise: it tries the entries one by one from the last to the
-- first, and gives up where that is no order.
use kube_bundler.Prelude.{
  String, Bool, true, false, ◌&&◌, ◌||◌, not, Option, none, some, List, [], ◌∷◌, ◌++◌, ◌≡◌, refl,
  sym, All, Memᴰ, flatten, ◌==◌, if◌then◌else◌, ==_iff, Bool-cases, inl, inr, arith,
}
use kube_bundler.Managers.Solver.{Entry, Ready, Layered, Sound}

abbrev is_in : List String → String → Bool
is_in [] x = false
is_in (y ∷ ys) x = x == y || is_in ys x

abbrev all_in : List String → List String → Bool
all_in [] ys = true
all_in (x ∷ xs) ys = is_in ys x && all_in xs ys

abbrev is_ready : List Entry → List String → String → Bool
is_ready [] finished name = true
is_ready (e ∷ es) finished name =
    (not (e.id == name) || all_in e.deps finished) && is_ready es finished name

abbrev all_ready : List Entry → List String → List String → Bool
all_ready es finished [] = true
all_ready es finished (name ∷ names) = is_ready es finished name && all_ready es finished names

abbrev is_layered : List Entry → List String → List (List String) → Bool
is_layered es finished [] = true
is_layered es finished (layer ∷ layers) =
    all_ready es finished layer && is_layered es (layer ++ finished) layers

abbrev has_all : List Entry → List String → Bool
has_all [] names = true
has_all (e ∷ es) names = is_in names e.id && has_all es names

abbrev last_first : List Entry → List (List String) → List (List String)
last_first [] layers = layers
last_first (e ∷ es) layers = last_first es ((e.id ∷ []) ∷ layers)

abbrev pub solve : List Entry → Option (List (List String))
solve es =
    let layers = last_first es [] in
    if is_layered es [] layers && has_all es (flatten layers) then some layers else none

is_in-Memᴰ : (ys : List String) (x : String) → is_in ys x ≡ true → Memᴰ x ys
is_in-Memᴰ [] x h = ground arith
is_in-Memᴰ (y ∷ ys) x h = elim (Bool-cases (x == y)) [
  | inl p ↦ Memᴰ.head ((==_iff x y).0 p)
  | inr p ↦ Memᴰ.tail (is_in-Memᴰ ys x (rw p at h))
]

all_in-All : (xs ys : List String) → all_in xs ys ≡ true → All (λ x. Memᴰ x ys) xs
all_in-All [] ys h = tt
all_in-All (x ∷ xs) ys h = (is_in-Memᴰ ys x (ground arith), all_in-All xs ys (ground arith))

is_ready-Ready :
    (es : List Entry) (finished : List String) (name : String)
    → is_ready es finished name ≡ true
    → Ready es finished name
is_ready-Ready [] finished name h = tt
is_ready-Ready (e ∷ es) finished name h = (
  λ p.
      let same = (==_iff e.id name).1 p in
      all_in-All e.deps finished (ground (arith, rw same at h)),
  is_ready-Ready es finished name (ground arith),
)

all_ready-All :
    (es : List Entry) (finished names : List String)
    → all_ready es finished names ≡ true
    → All (Ready es finished) names
all_ready-All es finished [] h = tt
all_ready-All es finished (name ∷ names) h =
    (is_ready-Ready es finished name (ground arith), all_ready-All es finished names (ground arith))

is_layered-Layered :
    (es : List Entry) (finished : List String) (layers : List (List String))
    → is_layered es finished layers ≡ true
    → Layered es finished layers
is_layered-Layered es finished [] h = tt
is_layered-Layered es finished (layer ∷ layers) h = (
  all_ready-All es finished layer (ground arith),
  is_layered-Layered es (layer ++ finished) layers (ground arith),
)

has_all-All :
    (es : List Entry) (names : List String)
    → has_all es names ≡ true
    → All (λ (e : Entry). Memᴰ e.id names) es
has_all-All [] names h = tt
has_all-All (e ∷ es) names h =
    (is_in-Memᴰ names e.id (ground arith), has_all-All es names (ground arith))

checked :
    (b : Bool) (found layers : List (List String))
    → (if b then some found else none) ≡ some layers
    → (b ≡ true) × (found ≡ layers)
checked true found layers h = (refl, ground (arith, h))
checked false found layers h = ground (arith, h)

pub solve-Sound : Sound solve
solve-Sound = record {
  layered = λ es layers h.
      let (b, p) = checked _ (last_first es []) layers h in
      rw (sym p) (is_layered-Layered es [] (last_first es []) (ground (arith, b)));
  complete = λ es layers h.
      let (b, p) = checked _ (last_first es []) layers h in
      rw (sym p) (has_all-All es (flatten (last_first es [])) (ground (arith, b)));
}
