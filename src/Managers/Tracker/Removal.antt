-- ===== src/Managers/Tracker/Removal.antt =====
-- The invariant of the tracker, and that it is kept when a check ends or is cancelled.
use kube_bundler.Prelude.{
  ℕ, ◌≡◌, ◌≢◌, refl, sym, ap, ◌∙◌, String, false, Option, none, some, map, Memᴰ, inl, inr, arith,
  Option-cases, String-discrete,
}
use mathlib.Core.List.Memᴰ
use mathlib.Core.Path.{subst}
use kube_bundler.Prelude.Dict.{Dict, lookup, erase, lookup-insert, lookup-erase}
use kube_bundler.Managers.Tracker.Checks.{
  running, without-of, without-keeps, cancel-name, cancel_other, cancel-live,
}
use kube_bundler.Managers.Health.{AppStatus}
use kube_bundler.Managers.Tracker.{Check, AppContext, State, cancel, remove, store, finish}

-- Every tracked application has its check, which is not cancelled, every check that is not cancelled is that of
-- a tracked application, and every result is that of a check.
pub record Inv (s : State) : Type 0 where
  pub has_check :
      (name : String) (x : AppContext)
      → lookup name s.tracker ≡ some x
      → Memᴰ (running x name) s.checks
  pub is_tracked :
      (g : Check)
      → Memᴰ g s.checks
      → g.cancelled ≡ false
      → (x : AppContext) × (lookup g.name s.tracker ≡ some x) × (x.check ≡ g.id)
  pub has_owner :
      (name : String) (r : AppStatus)
      → lookup name s.results ≡ some r
      → (g : Check) × Memᴰ g s.checks × (g.name ≡ name)

pub finish-Inv : (s : State) (g : Check) → Inv s → Inv (finish g s)
unfolding finish
finish-Inv s g I = record {
  has_check = λ name x e. without-keeps g (running x name) s.checks refl (I.has_check name x e);
  is_tracked = λ h m live. I.is_tracked h (without-of g h s.checks m) live;
  has_owner = λ name r e. elim (String-discrete name g.name) [
    | yes p ↦ ground (arith, p, lookup-erase name g.name s.results, e)
    | no n ↦
        let (h, m, q) =
          I.has_owner name r (ground (arith, n, lookup-erase name g.name s.results, e)) in
        (h, without-keeps g h s.checks (ground (arith, n, q)) m, q)
  ];
}

pub store-Inv :
    (s : State) (g : Check) (status : AppStatus)
    → Memᴰ g s.checks
    → Inv s
    → Inv (store g.name status s)
unfolding store
store-Inv s g status m I = record {
  has_check = I.has_check;
  is_tracked = I.is_tracked;
  has_owner = λ name r e. elim (String-discrete name g.name) [
    | yes p ↦ (g, m, sym p)
    | no n ↦ I.has_owner name r (ground (arith, n, lookup-insert name g.name status s.results, e))
  ];
}

abbrev check_of : Option AppContext → ℕ
check_of none = 0
check_of (some x) = x.check

-- Two lookups of the same name have the same check.
pub same_check :
    (m : Dict AppContext) (a b : String) (x y : AppContext)
    → a ≡ b
    → lookup a m ≡ some x
    → lookup b m ≡ some y
    → x.check ≡ y.check
same_check m a b x y p e f = ap check_of (sym e ∙ ap (λ n. lookup n m) p ∙ f)

module _ (s : State) (name : String) (x : AppContext) (tracked : lookup name s.tracker ≡ some x)
    (I : Inv s) where
  -- A check that is still not cancelled was not, and has another name.
  live_after :
      (g h : Check)
      → cancel x.check name g ≡ h
      → h.cancelled ≡ false
      → Memᴰ g s.checks
      → (g ≡ h) × (g.name ≢ name)
  live_after g h q live m =
      let (same, p) = cancel-live x.check name g h q live in
      let (y, e, f) = I.is_tracked g m (ap (λ (c : Check). c.cancelled) same ∙ live) in
      (
        same,
        λ r.
            let id : g.id ≡ x.check = sym f ∙ same_check s.tracker g.name name y x r e tracked in
            ground (arith, p, r, id),
      )

  removed-Inv :
      Inv (record s { tracker = erase name s.tracker; checks = map (cancel x.check name) s.checks })
  removed-Inv = record {
    has_check = λ n y e. elim (String-discrete n name) [
      | yes p ↦ ground (arith, p, lookup-erase n name s.tracker, e)
      | no other ↦
          let e' : lookup n s.tracker ≡ some y =
            ground (arith, other, lookup-erase n name s.tracker, e) in
          subst (λ z. Memᴰ z (map (cancel x.check name) s.checks))
            (cancel_other x.check name y n other)
            (Memᴰ.map (cancel x.check name) (I.has_check n y e'))
    ];
    is_tracked = λ h m live.
        let (g, mg, q) = Memᴰ.of_map (cancel x.check name) s.checks m in
        let (same, other) = live_after g h q live mg in
        let (y, e, f) = I.is_tracked g mg (ap (λ (c : Check). c.cancelled) same ∙ live) in
        let e' : lookup g.name (erase name s.tracker) ≡ some y =
          ground (arith, other, lookup-erase g.name name s.tracker, e) in
        subst
          (λ (c : Check).
            (y : AppContext) × (lookup c.name (erase name s.tracker) ≡ some y) × (y.check ≡ c.id))
          same (y, e', f);
    has_owner = λ n r e.
        let (g, m, q) = I.has_owner n r e in
        (cancel x.check name g, Memᴰ.map (cancel x.check name) m, cancel-name x.check name g ∙ q);
  }

pub remove-Inv : (s : State) (name : String) → Inv s → Inv (remove name s)
unfolding remove
remove-Inv s name I = elim (Option-cases (lookup name s.tracker)) [
  | inl p ↦ rw (p, remove) I
  | inr (x, p) ↦ rw (p, remove) (removed-Inv s name x p I)
]
