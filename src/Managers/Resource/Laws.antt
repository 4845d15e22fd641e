-- ===== src/Managers/Resource/Laws.antt =====
-- What the resource manager leaves in the cluster.
use kube_bundler.Prelude.{Bool-cases, inl, inr, true, ◌⊎◌, arith, refl, ap}
use kube_bundler.Go.Errors.{Error, is_api_not_found}
use kube_bundler.Go.Io.{
  Io, attempt, attempt-ok, bind-ok, annotate-ok, pure, ◌>>◌, Result-cases, panic, err,
}
use kube_bundler.Managers.Resource.{create, or_create, create_if_not_exists}
use kube_bundler.Prelude.{ℕ, zero, suc, String, ◌≡◌, refl, some, inl, ◌⊎◌, arith, Bool-cases}
use kube_bundler.Go.Io.{ok, Result, panic, err}
use kube_bundler.Cluster.Clients.{Objects, Clock}
use kube_bundler.Managers.Resource.{
  create_or_patch, patch_found, poll_gone, finish_delete, after_read, poll_or_fail, delete, second,
  ignore_not_found, or_create,
}
use kube_bundler.Managers.Resource.{create, Error, is_api_not_found}

module _ {W A : Type 0} (c : Objects W A) (clock : Clock W) (name namespace : String) where
  -- The API took a request, or it had no such object.
  abbrev pub Taken : {B : Type 0} → Result B → Type 0
  Taken {B} r = ((b : B) × (r ≡ ok b)) ⊎ ((e : Error) × (r ≡ err e) × (is_api_not_found e ≡ true))

  -- A removal was requested from the API, and it took the request or had no such object. One read followed, whether or
  -- not it still found the object, and a pause of a second.
  pub record Requested (w w' : W) : Type 0 where
    pub requested : W
    pub answer : Result (Unit {0})
    pub request : c.delete_all_of name namespace w ≡ (answer, requested)
    pub is_taken : Taken answer
    pub looked : Taken (c.get name namespace requested).0
    pub paused : clock.sleep second (c.get name namespace requested).1 ≡ w'

  after_request :
      (fuel : ℕ) (u w' : W)
      → finish_delete c clock name namespace (poll_gone c clock name namespace fuel u)
        ≡ some (ok tt, w')
      → Taken (c.get name namespace u).0 × (clock.sleep second (c.get name namespace u).1 ≡ w')
  unfolding poll_gone ignore_not_found finish_delete after_read
  after_request zero u w' h = ground (arith, h)
  after_request (suc fuel) u w' h = elim (Result-cases (c.get name namespace u).0) [
    | inl (a, p) ↦ (inl (a, p), ground (arith, rw (p, poll_gone) at h))
    | inr (inr (why, p)) ↦ ground (arith, rw (p, poll_gone) at h)
    | inr (inl (e, p)) ↦ elim (Bool-cases (is_api_not_found e)) [
      | inl q ↦ (
        inr (e, p, q),
        let h' = rw (p, poll_gone) at h in
            ground (arith, rw (q, finish_delete, after_read, ignore_not_found) at h'),
      )
      | inr q ↦
          let h' = rw (p, poll_gone) at h in
          ground (arith, rw (q, finish_delete, after_read, ignore_not_found) at h')
    ]
  ]

  request-Requested :
      (fuel : ℕ) (w w' : W)
      → Taken (c.delete_all_of name namespace w).0
      → finish_delete c clock name namespace
          (poll_gone c clock name namespace fuel (c.delete_all_of name namespace w).1)
        ≡ some (ok tt, w')
      → Requested w w'
  request-Requested fuel w w' taken h =
      let (looked, paused) = after_request fuel (c.delete_all_of name namespace w).1 w' h in
      record {
        requested = (c.delete_all_of name namespace w).1;
        answer = (c.delete_all_of name namespace w).0;
        request = refl;
        is_taken = taken;
        looked = looked;
        paused = paused;
      }

  pub delete-Requested :
      (fuel : ℕ) (w w' : W)
      → delete c clock name namespace fuel w ≡ some (ok tt, w')
      → Requested w w'
  unfolding delete ignore_not_found poll_or_fail
  delete-Requested fuel w w' h = elim (Result-cases (c.delete_all_of name namespace w).0) [
    | inl (a, p) ↦ request-Requested fuel w w' (inl (a, p)) (rw (p, delete) at h)
    | inr (inr (why, p)) ↦ ground (arith, rw (p, delete) at h)
    | inr (inl (e, p)) ↦ elim (Bool-cases (is_api_not_found e)) [
      | inl q ↦
          let h' = rw (p, delete) at h in
          request-Requested fuel w w' (inr (e, p, q)) (rw (q, poll_or_fail, ignore_not_found) at h')
      | inr q ↦
          let h' = rw (p, delete) at h in
          ground (arith, rw (q, poll_or_fail, ignore_not_found) at h')
    ]
  ]

pair-eq : {A B : Type 0} (o : A × B) (a : A) (b : B) → o.0 ≡ a → o.1 ≡ b → o ≡ (a, b)
pair-eq o a b p q = rw (← p, ← q) refl

module _ {W A : Type 0} (c : Objects W A) (name_of namespace_of : A → String) where
  -- How the object came to be there: it was found, or it was missing and was created as given.
  abbrev pub Obtained : A → Result A → W → A → W → Type 0
  Obtained obj r w a w' =
      ((r ≡ ok a) × (w ≡ w'))
      ⊎ ((e : Error) × (r ≡ err e)
          × (is_api_not_found e ≡ true)
          × (c.create obj w ≡ (ok tt, w'))
          × (a ≡ obj))

  created :
      (obj a : A) (w w' : W)
      → (create c name_of namespace_of obj >> pure obj) w ≡ (ok a, w')
      → (c.create obj w ≡ (ok tt, w')) × (a ≡ obj)
  unfolding create
  created obj a w w' h = elim (Result-cases (c.create obj w).0) [
    | inl (x, p) ↦ let h' = rw p at h in (pair-eq _ _ _ p (ap (λ o. o.1) h'), ground (arith, h'))
    | inr (inl (x, p)) ↦ ground (arith, rw p at h)
    | inr (inr (why, p)) ↦ ground (arith, rw p at h)
  ]

  or_create-Obtained :
      (obj : A) (r : Result A) (w : W) (a : A) (w' : W)
      → or_create c name_of namespace_of obj r w ≡ (ok a, w')
      → Obtained obj r w a w'
  unfolding or_create
  or_create-Obtained obj (ok found) w a w' h = inl (ap (λ o. o.0) h, ap (λ o. o.1) h)
  or_create-Obtained obj (panic why) w a w' h = ground arith
  or_create-Obtained obj (err e) w a w' h = elim (Bool-cases (is_api_not_found e)) [
    | inl p ↦ let (q, s) = created obj a w w' (rw p at h) in inr (e, refl, p, q, s)
    | inr p ↦ ground (arith, rw p at h)
  ]

  -- Where the manager returns an object with no error, it is the object of the cluster, which is
  -- left alone, or there was none and the given object has been created.
  create_if_not_exists-Obtained :
      (obj : A) (w : W) (a : A) (w' : W)
      → create_if_not_exists c name_of namespace_of obj w ≡ (ok a, w')
      → Obtained obj
          (c.get (name_of obj) (namespace_of obj) w).0
          (c.get (name_of obj) (namespace_of obj) w).1
          a
          w'
  unfolding create_if_not_exists
  create_if_not_exists-Obtained obj w a w' h = or_create-Obtained obj _ _ a w' h

module _ {W A : Type 0} (c : Objects W A) (named : String → String → A → A)
    (library : A → (A → A) → Io W (Unit {0})) (name namespace : String) (obj : A)
    (change : A → A) where
  -- The object was read and changed by the library, or, as there was none, the given object with its name was.
  pub record Changed (w w' : W) : Type 0 where
    pub target : A
    pub looked : W
    pub origin :
        (c.get name namespace w ≡ (ok target, looked))
        ⊎ ((e : Error) × (c.get name namespace w ≡ (err e, looked))
            × (is_api_not_found e ≡ true)
            × (target ≡ named name namespace obj))
    pub change_made : library target change looked ≡ (ok tt, w')

  pub create_or_patch-Changed :
      (w w' : W)
      → create_or_patch c named library name namespace obj change w ≡ (ok tt, w')
      → Changed w w'
  unfolding create_or_patch patch_found
  create_or_patch-Changed w w' h =
      let read = c.get name namespace in
      let (r, u, h1, r1) = bind-ok (attempt read) _ w w' tt h in
      go r u (attempt-ok read w u r h1) r1
    where
      go :
          (r : Result A) (u : W)
          → c.get name namespace w ≡ (r, u)
          → patch_found c named library name namespace obj change r u ≡ (ok tt, w')
          → Changed w w'
      go (ok found) u p h1 = record {
        target = found;
        looked = u;
        origin = inl p;
        change_made = annotate-ok _ _ (library found change) u w' tt h1;
      }
      go (panic why) u p h1 = ground (arith, h1)
      go (err e) u p h1 = elim (Bool-cases (is_api_not_found e)) [
        | inl q ↦ record {
          target = named name namespace obj;
          looked = u;
          origin = inr (e, p, q, refl);
          change_made =
              annotate-ok _ _ (library (named name namespace obj) change) u w' tt (rw q at h1);
        }
        | inr q ↦ ground (arith, rw q at h1)
      ]
