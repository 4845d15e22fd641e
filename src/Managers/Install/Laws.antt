-- ===== src/Managers/Install/Laws.antt =====
-- What an install is, once it was created.
use kube_bundler.Managers.Install.{kept_parameters}
use kube_bundler.Prelude.{◌∙◌, ◌∷◌, []}
use kube_bundler.Prelude.{◌≡◌, List, sym, ap, arith}
use mathlib.Core.Path.{subst}
use kube_bundler.Go.Io.{ok, bind-ok}
use kube_bundler.Api.{Install}
use kube_bundler.Managers.Client.{KbClient, Libraries}
use kube_bundler.Managers.Install.{
  Request, requested, check_nodes, find_existing, apply_install, install,
}

module _ {W Key U : Type 0} (c : KbClient W Key U) (l : Libraries W U) where
  -- The install that was applied, after the check of the nodes and the look at what is there.
  pub record Installed (q : Request) (i : Install) (w w' : W) : Type 0 where
    pub checked : W
    pub nodes_checked : check_nodes c q w ≡ (ok tt, checked)
    pub existing : List Install
    pub listed : W
    pub existing_found : find_existing c q checked ≡ (ok existing, listed)
    pub applied : apply_install c l (requested q existing) listed ≡ (ok tt, w')
    pub is_requested : i ≡ requested q existing

  -- If an install is created or changed with no error, then the nodes were checked, the installs of its name
  -- were listed after that, and what was applied and returned is the install that was requested, with the
  -- parameters of the one that was listed where there is exactly one, else with those of the request.
  install-Installed :
      (q : Request) (i : Install) (w w' : W) → install c l q w ≡ (ok i, w') → Installed q i w w'
  unfolding install
  install-Installed q i w w' e =
      let (_, w1, e1, r1) = bind-ok (check_nodes c q) _ w w' i e in
      let (existing, w2, e2, r2) = bind-ok (find_existing c q) _ w1 w' i r1 in
      let (_, w3, e3, r3) = bind-ok (apply_install c l (requested q existing)) _ w2 w' i r2 in
      let same : requested q existing ≡ i = ground (arith, r3) in
      let ends : w3 ≡ w' = ap (λ p. p.1) r3 in
      record {
        checked = w1;
        nodes_checked = e1;
        existing = existing;
        listed = w2;
        existing_found = e2;
        applied = subst (λ v. apply_install c l (requested q existing) w2 ≡ (ok tt, v)) ends e3;
        is_requested = sym same;
      }

  -- If an install was created or changed with no error, and from then on the list of the installs of
  -- its name gives that install alone, then a second request for it that returns no error
  -- leaves its parameters as they are, whatever parameters the second request has.
  pub install_twice :
      (Stored : W → Type 0) (q q' : Request) (i i' : Install) (w w1 w2 : W)
      → ((u u' : W) → apply_install c l i u ≡ (ok tt, u') → Stored u')
      → ((u u' : W) → Stored u → check_nodes c q' u ≡ (ok tt, u') → Stored u')
      → ((existing : List Install) (u u' : W)
          → Stored u
          → find_existing c q' u ≡ (ok existing, u')
          → existing ≡ i ∷ [])
      → install c l q w ≡ (ok i, w1)
      → install c l q' w1 ≡ (ok i', w2)
      → i'.spec.parameters ≡ i.spec.parameters
  unfolding requested kept_parameters
  install_twice Stored q q' i i' w w1 w2 stores keeps finds first second =
      let F = install-Installed q i w w1 first in
      let S = install-Installed q' i' w1 w2 second in
      let applied : apply_install c l i F.listed ≡ (ok tt, w1) =
        subst (λ j. apply_install c l j F.listed ≡ (ok tt, w1)) (sym F.is_requested) F.applied in
      let stored = keeps w1 S.checked (stores F.listed w1 applied) S.nodes_checked in
      let alone = finds S.existing S.checked S.listed stored S.existing_found in
      ap (λ (j : Install). j.spec.parameters) S.is_requested
      ∙ ap (kept_parameters q'.parameters) alone
