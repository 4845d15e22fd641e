-- ===== src/Managers/Config/Laws.antt =====
-- What a change of a parameter writes to the install.
use kube_bundler.Prelude.{
  String, ◌≡◌, refl, ◌≢◌, ap, inl, inr, some, List, [], ◌∷◌, ◌++◌, All, arith, String-discrete,
  Option-cases,
}
use mathlib.Core.Path.{subst}
use mathlib.Core.Logic.{if_pos, if_neg}
use kube_bundler.Prelude.Dict.{Dict, lookup}
use kube_bundler.Go.Errors.{text}
use kube_bundler.Go.Io.{ok, annotate, annotate-ok, bind-ok}
use kube_bundler.Api.{Install, Application, ParameterSpec, no_secret}
use kube_bundler.Cluster.Clients.{Objects, SecretClient, Entropy}
use kube_bundler.Managers.Config.{
  InstallReference, override, with_parameters, list, check_known, set,
}
use kube_bundler.Managers.Resource

-- The first parameter of the name has the value and is otherwise as it was, or, if there was none, a new one stands at the
-- end. The other parameters are as they were.
pub data Given (key value : String) (old : List ParameterSpec) : List ParameterSpec → Type 0 where
  changed :
      (before : List ParameterSpec) (p : ParameterSpec) (after : List ParameterSpec)
      → old ≡ before ++ (p ∷ after)
      → All (λ (q : ParameterSpec). q.name ≢ key) before
      → p.name ≡ key
      → Given key value old (before ++ (record p { value = value } ∷ after))
  appended :
      All (λ (q : ParameterSpec). q.name ≢ key) old
      → Given key value old
          (old ++ (record { name = key; value = value; generate_secret = no_secret } ∷ []))

later-Given :
    (key value : String) (p : ParameterSpec) (ps qs : List ParameterSpec)
    → p.name ≢ key
    → Given key value ps qs
    → Given key value (p ∷ ps) (p ∷ qs)
later-Given key value p ps _ n (Given.changed before q after e all named) =
    Given.changed (p ∷ before) q after (ap (λ x. p ∷ x) e) (n, all) named
later-Given key value p ps _ n (Given.appended all) = Given.appended (n, all)

override-Given :
    (key value : String) (ps : List ParameterSpec) → Given key value ps (override key value ps)
unfolding override
override-Given key value [] = Given.appended tt
override-Given key value (p ∷ ps) = elim (String-discrete p.name key) [
  | yes e ↦ rw (if_pos _ e) (Given.changed [] p ps refl tt e)
  | no n ↦
      rw (if_neg _ n)
        (later-Given key value p ps (override key value ps) n (override-Given key value ps))
]

module _ {W Key : Type 0} (installs : Objects W Install) (applications : Objects W Application)
    (secrets : SecretClient W) (entropy : Entropy W Key) where
  -- The calls of a `Set` with no error.
  pub record WasSet (ref : InstallReference) (key value : String) (w w' : W) : Type 0 where
    pub config_map : Dict String
    pub listed : W
    pub is_listed : list installs applications secrets entropy ref w ≡ (ok config_map, listed)
    pub old : String
    pub is_known : lookup key config_map ≡ some old
    pub original : Install
    pub found : W
    pub is_found : installs.get ref.name ref.namespace listed ≡ (ok original, found)
    pub parameters : List ParameterSpec
    pub is_given : Given key value original.spec.parameters parameters
    pub is_patched :
        installs.patch (with_parameters original parameters) original found ≡ (ok tt, w')

  check_known-ok :
      (ref : InstallReference) (key : String) (m : Dict String) (w w' : W)
      → check_known installs applications secrets entropy ref key m w ≡ (ok tt, w')
      → (v : String) × (lookup key m ≡ some v) × (w ≡ w')
  unfolding check_known
  check_known-ok ref key m w w' h = elim (Option-cases (lookup key m)) [
    | inl p ↦ ground (arith, rw (p, check_known) at h)
    | inr (v, p) ↦ (v, p, ground (arith, rw (p, check_known) at h))
  ]

  -- If `Set` returns no error, then the merged map of the install has the key, and the install was read and patched to one
  -- in which the first parameter of that name has the new value, or, if there was none, a new parameter stands at the
  -- end, and in which all else is as it was.
  pub set-WasSet :
      (ref : InstallReference) (key value : String) (w w' : W)
      → set installs applications secrets entropy ref key value w ≡ (ok tt, w')
      → WasSet ref key value w w'
  unfolding set Resource.get Resource.patch
  set-WasSet ref key value w w' h =
      let read_map = list installs applications secrets entropy ref in
      let (m, w1, h1, r1) = bind-ok (annotate "failed to get config map" [] read_map) _ w w' tt h in
      let (a, w2, h2, r2) =
        bind-ok (check_known installs applications secrets entropy ref key m) _ w1 w' tt r1 in
      let (v, known, same) = check_known-ok ref key m w1 w2 h2 in
      let get = installs.get ref.name ref.namespace in
      let read = annotate "couldn't get resource %q" (text ref.name ∷ []) get in
      let (original, w3, h3, r3) =
        bind-ok (annotate "couldn't find install %q" (text ref.name ∷ []) read) _ w2 w' tt r2 in
      let ps = override key value original.spec.parameters in
      let changed_install = with_parameters original ps in
      let patch = installs.patch changed_install original in
      let write = annotate "couldn't patch resource %q" (text changed_install.name ∷ []) patch in
      record {
        config_map = m;
        listed = w2;
        is_listed = subst (λ u. read_map w ≡ (ok m, u)) same (annotate-ok _ _ read_map w w1 m h1);
        old = v;
        is_known = known;
        original = original;
        found = w3;
        is_found = annotate-ok _ _ get w2 w3 original (annotate-ok _ _ read w2 w3 original h3);
        parameters = ps;
        is_given = override-Given key value original.spec.parameters;
        is_patched = annotate-ok _ _ patch w3 w' tt (annotate-ok _ _ write w3 w' tt r3);
      }
