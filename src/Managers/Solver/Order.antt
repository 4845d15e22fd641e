-- ===== src/Managers/Solver/Order.antt =====
-- Work on names in the order of the layers that the dependency solver gives, as the loops of
-- managers/manifest.go and managers/register.go do it.
use kube_bundler.Prelude.{
  ◌≡◌, sym, String, List, [], ◌∷◌, ◌++◌, All, All-map, Memᴰ, flatten, push, append-push,
}
use mathlib.Core.Path.{subst}
use kube_bundler.Managers.Solver.{Entry, Ready, Layered}

pub Ready-mono :
    (entries : List Entry) (d d' : List String) (name : String)
    → ((x : String) → Memᴰ x d → Memᴰ x d')
    → Ready entries d name
    → Ready entries d' name
Ready-mono [] d d' name sub h = tt
Ready-mono (e ∷ es) d d' name sub h =
    ((λ p. All-map sub e.deps (h.0 p)), Ready-mono es d d' name sub h.1)

-- `Done name w w'` says that the name was worked on from one world to the other.
module _ {W : Type 0} (Done : String → W → W → Type 0) where
  -- The names in order, whatever they depend on.
  pub data Sequence : List String → W → W → Type 0 where
    at_end : (w w' : W) → w ≡ w' → Sequence [] w w'
    then_more :
        (name : String) (names : List String) (w u w' : W)
        → Done name w u
        → Sequence names u w'
        → Sequence (name ∷ names) w w'

  pub data Layers : List (List String) → W → W → Type 0 where
    no_more : (w w' : W) → w ≡ w' → Layers [] w w'
    then_layer :
        (layer : List String) (layers : List (List String)) (w u w' : W)
        → Sequence layer w u
        → Layers layers u w'
        → Layers (layer ∷ layers) w w'

module _ {W : Type 0} (Done : String → W → W → Type 0) (entries : List Entry) where
  -- The names are worked on one after another from one world to the other, each after everything
  -- that it depends on. `finished` are the names before them.
  pub data InOrder : List String → List String → W → W → Type 0 where
    over : (finished : List String) (w w' : W) → w ≡ w' → InOrder finished [] w w'
    then_next :
        (finished : List String) (name : String) (names : List String) (w u w' : W)
        → Ready entries finished name
        → Done name w u
        → InOrder (name ∷ finished) names u w'
        → InOrder finished (name ∷ names) w w'

  InOrder-append :
      (finished xs ys : List String) (w u w' : W)
      → InOrder finished xs w u
      → InOrder (push xs finished) ys u w'
      → InOrder finished (xs ++ ys) w w'
  InOrder-append finished [] ys w u w' (over _ _ _ p) rest =
      subst (λ v. InOrder finished ys v w') (sym p) rest
  InOrder-append finished (x ∷ xs) ys w u w' (then_next _ _ _ _ v _ ready step more) rest =
      then_next finished x (xs ++ ys) w v w' ready step
        (InOrder-append (x ∷ finished) xs ys v u w' more rest)

  Sequence-InOrder :
      (names spec finished : List String) (w w' : W)
      → ((x : String) → Memᴰ x spec → Memᴰ x finished)
      → All (Ready entries spec) names
      → Sequence Done names w w'
      → InOrder finished names w w'
  Sequence-InOrder [] spec finished w w' sub ready (at_end _ _ p) = over finished w w' p
  Sequence-InOrder (name ∷ names) spec finished w w' sub ready (then_more _ _ _ u _ step more) =
      then_next finished name names w u w' (Ready-mono entries spec finished name sub ready.0) step
        (Sequence-InOrder names spec (name ∷ finished) u w' (λ x h. Memᴰ.tail (sub x h)) ready.1
          more)

  -- Layers that depend on earlier layers alone, gone through one after another.
  pub Layers-InOrder :
      (layers : List (List String)) (spec finished : List String) (w w' : W)
      → ((x : String) → Memᴰ x spec → Memᴰ x finished)
      → Layered entries spec layers
      → Layers Done layers w w'
      → InOrder finished (flatten layers) w w'
  Layers-InOrder [] spec finished w w' sub h (no_more _ _ p) = over finished w w' p
  Layers-InOrder (layer ∷ layers) spec finished w w' sub h (then_layer _ _ _ u _ one more) =
      InOrder-append finished layer (flatten layers) w u w'
        (Sequence-InOrder layer spec finished w u sub h.0 one)
        (Layers-InOrder layers (layer ++ spec) (push layer finished) u w'
          (append-push layer spec finished sub) h.1 more)
