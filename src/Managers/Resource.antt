-- ===== src/Managers/Resource.antt =====
-- managers/resource.go: the resource manager, over the client of one kind of objects. `name_of` and
-- `namespace_of` are the object's `GetName` and `GetNamespace`.
pub mod Laws
use kube_bundler.Prelude.{
  ℕ, zero, suc, String, Bool, true, false, Option, none, some, List, [], ◌∷◌, if◌then◌else◌,
}
use kube_bundler.Go.Errors.{Error, text, wrapped, is_api_not_found}
use kube_bundler.Go.Io.{
  Result, ok, err, panic, Io, pure, fail, crash, annotate, attempt, error_of, ◌>>=◌, ◌>>◌,
}
use kube_bundler.Cluster.Clients.{Objects, Clock}

abbrev pub second : ℕ
second = 1_000_000_000

-- `client.IgnoreNotFound`, which is nil for nil.
unfoldable pub ignore_not_found : Option Error → Option Error
ignore_not_found none = none
ignore_not_found (some e) = if is_api_not_found e then none else some e

module _ {W A : Type 0} (c : Objects W A) (name_of namespace_of : A → String) where
  unfoldable pub get : String → String → Io W A
  get name namespace = annotate "couldn't get resource %q" (text name ∷ []) (c.get name namespace)

  unfoldable pub list : String → Io W (List A)
  list namespace =
      annotate "couldn't list resources in namespace %q" (text namespace ∷ []) (c.list namespace)

  unfoldable pub create : A → Io W (Unit {0})
  create obj = annotate "couldn't create resource %q" (text (name_of obj) ∷ []) (c.create obj)

  -- What follows the read of the object, which overwrites `obj` where it succeeds.
  unfoldable pub or_create : A → Result A → Io W A
  unfolding create
  or_create obj (ok found) = pure found
  or_create obj (panic why) = crash why
  or_create obj (err e) =
      if is_api_not_found e
      then (create obj >> pure obj)
      else fail (wrapped "couldn't get resource %q" (text (name_of obj) ∷ []) e)

  -- The object that `obj` points to afterwards is returned.
  unfoldable pub create_if_not_exists : A → Io W A
  unfolding or_create
  create_if_not_exists obj w =
      let (r, w') = c.get (name_of obj) (namespace_of obj) w in or_create obj r w'

  unfoldable pub patch : A → A → Io W (Unit {0})
  patch new_obj original =
      annotate "couldn't patch resource %q" (text (name_of new_obj) ∷ []) (c.patch new_obj original)

  unfoldable pub apply : A → Io W (Unit {0})
  apply obj = annotate "couldn't apply resource %q" (text (name_of obj) ∷ []) (c.apply obj)

-- `named` sets the name and the namespace of an object; `library` is `controllerutil.CreateOrPatch`,
-- given the object and the function that changes it.
module _ {W A : Type 0} (c : Objects W A) (named : String → String → A → A)
    (library : A → (A → A) → Io W (Unit {0})) where
  -- What follows the read of the object, which overwrites `obj` where it succeeds.
  unfoldable pub patch_found : String → String → A → (A → A) → Result A → Io W (Unit {0})
  patch_found name namespace obj change (ok found) =
      annotate "couldn't create or update resource" [] (library found change)
  patch_found name namespace obj change (panic why) = crash why
  patch_found name namespace obj change (err e) =
      if is_api_not_found e
      then annotate "couldn't create or update resource" []
          (library (named name namespace obj) change)
      else fail (wrapped "couldn't get resource to create or patch" [] e)

  unfoldable pub create_or_patch : String → String → A → (A → A) → Io W (Unit {0})
  unfolding patch_found
  create_or_patch name namespace obj change = do
    r ← attempt (c.get name namespace)
    patch_found name namespace obj change r

module _ {W A : Type 0} (c : Objects W A) (clock : Clock W) (name namespace : String) where
  -- The tests of the loop's body after the read: `break`, an error, or another round.
  unfoldable pub after_read :
      Option Error → W → Option (Result (Unit {0}) × W) → Option (Result (Unit {0}) × W)
  after_read e w rest = elim (ignore_not_found e) [
    | none ↦ some (ok tt, w)
    | some _ ↦ elim e [
      | some x ↦ some (err (wrapped "error polling resource" [] x), w)
      | none ↦ rest
    ]
  ]

  -- The loop that polls the object: none when the fuel runs out.
  unfoldable pub poll_gone : ℕ → W → Option (Result (Unit {0}) × W)
  unfolding ignore_not_found after_read
  poll_gone zero w = none
  poll_gone (suc fuel) w =
      let (r, w') = c.get name namespace w in
      let rest = poll_gone fuel (clock.sleep second w') in
      elim r [
        | panic why ↦ some (panic why, w')
        | ok _ ↦ after_read none w' rest
        | err e ↦ after_read (some e) w' rest
      ]

  -- The last pause, once the loop is left with no error.
  unfoldable pub finish_delete : Option (Result (Unit {0}) × W) → Option (Result (Unit {0}) × W)
  finish_delete none = none
  finish_delete (some (ok _, w)) = some (ok tt, clock.sleep second w)
  finish_delete (some (err e, w)) = some (err e, w)
  finish_delete (some (panic why, w)) = some (panic why, w)

  -- What follows the request.
  unfoldable pub poll_or_fail : ℕ → Option Error → W → Option (Result (Unit {0}) × W)
  unfolding ignore_not_found poll_gone finish_delete
  poll_or_fail fuel e w = elim (ignore_not_found e) [
    | some x ↦ some (err (wrapped "error deleting resource" [] x), w)
    | none ↦ finish_delete (poll_gone fuel w)
  ]

  unfoldable pub delete : ℕ → W → Option (Result (Unit {0}) × W)
  unfolding poll_or_fail
  delete fuel w =
      let (r, w') = c.delete_all_of name namespace w in
      elim r [
        | panic why ↦ some (panic why, w')
        | ok _ ↦ poll_or_fail fuel none w'
        | err e ↦ poll_or_fail fuel (some e) w'
      ]
