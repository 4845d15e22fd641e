-- ===== src/Parameter/Last.antt =====
-- A loop `for x in xs { m[name(x)] = value(x) }` against the last item of each name.
use kube_bundler.Prelude.{String, ◌≡◌, refl, Option, none, some, List, [], ◌∷◌, arith}
use kube_bundler.Prelude.{Bool, true, false, ◌==◌, if◌then◌else◌}
use kube_bundler.Prelude.Dict.{Dict, lookup, insert, lookup-insert}

-- The first option that holds a value.
abbrev pub or_else {ℓ} : {V : Type ℓ} → Option V → Option V → Option V
or_else none o = o
or_else (some v) o = some v

module _ {A V : Type 0} (name : A → String) (value : A → V) where
  unfoldable pub last_of : String → List A → Option V
  last_of k [] = none
  last_of k (x ∷ xs) = or_else (last_of k xs) (if k == name x then some (value x) else none)

  unfoldable pub insert_all : Dict V → List A → Dict V
  insert_all m [] = m
  insert_all m (x ∷ xs) = insert_all (insert (name x) (value x) m) xs

  pub lookup-insert_all :
      (k : String) (m : Dict V) (xs : List A)
      → lookup k (insert_all m xs) ≡ or_else (last_of k xs) (lookup k m)
  unfolding insert_all last_of
  lookup-insert_all k m [] = refl
  lookup-insert_all k m (x ∷ xs) = ground (
    arith,
    lookup-insert_all k (insert (name x) (value x) m) xs,
    lookup-insert k (name x) (value x) m,
  )

abbrev pub map_option {ℓ κ} : {V : Type ℓ} {U : Type κ} → (V → U) → Option V → Option U
map_option h none = none
map_option h (some v) = some (h v)

module _ {A V U : Type 0} (name : A → String) (value : A → V) (h : V → U) where
  map_option-or_else :
      (o : Option V) (b : Bool) (v : V)
      → or_else (map_option h o) (if b then some (h v) else none)
        ≡ map_option h (or_else o (if b then some v else none))
  map_option-or_else none true v = refl
  map_option-or_else none false v = refl
  map_option-or_else (some _) b v = refl

  -- The last item is the same for every value that is read off it.
  pub last_of-map :
      (k : String) (xs : List A)
      → last_of name (λ x. h (value x)) k xs ≡ map_option h (last_of name value k xs)
  unfolding last_of
  last_of-map k [] = refl
  last_of-map k (x ∷ xs) =
      rw (last_of-map k xs) (map_option-or_else (last_of name value k xs) (k == name x) (value x))
