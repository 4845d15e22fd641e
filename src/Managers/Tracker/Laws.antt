-- ===== src/Managers/Tracker/Laws.antt =====
-- Which checks run in a reachable state, and which results are there.
use kube_bundler.Prelude.{
  ◌≡◌, ◌≢◌, sym, ap, ◌∙◌, false, none, some, Memᴰ, inl, inr, arith, Option-cases, String-discrete,
}
use mathlib.Core.List.Memᴰ
use mathlib.Core.Path.{subst}
use kube_bundler.Prelude.Dict.{lookup, insert, lookup-insert}
use kube_bundler.Api.{Application}
use kube_bundler.Managers.Tracker.Checks.{}
use kube_bundler.Managers.Tracker.Removal.{Inv, finish-Inv, store-Inv, remove-Inv, same_check}
use kube_bundler.Managers.Tracker.{
  Check, AppContext, State, initial, start_check, meet, Step, meets, removes, stores, finishes,
  Reachable, at_start, by_step,
}

initial-Inv : Inv initial
unfolding lookup
initial-Inv = record {
  has_check = λ name x e. ground (arith, e);
  is_tracked = λ g m. absurd (Memᴰ.not-nil m);
  has_owner = λ name r e. ground (arith, e);
}

-- Another context of the same check in the tracker.
refreshed-Inv :
    (s : State) (app : Application) (x : AppContext)
    → lookup app.name s.tracker ≡ some x
    → Inv s
    → Inv (record s { tracker = insert app.name (record x { app = app }) s.tracker })
refreshed-Inv s app x tracked I = record {
  has_check = λ n y e. elim (String-discrete n app.name) [
    | yes p ↦
        let f : record x { app = app } ≡ y =
          ground (arith, p, lookup-insert n app.name (record x { app = app }) s.tracker, e) in
        let checks : x.check ≡ y.check = ap (λ (z : AppContext). z.check) f in
        subst (λ v. Memᴰ v s.checks)
          (ap (λ id. record { id = id; name = app.name; cancelled = false }) checks
            ∙ ap (λ k. record { id = y.check; name = k; cancelled = false }) (sym p))
          (I.has_check app.name x tracked)
    | no other ↦
        I.has_check n y
          (ground (arith, other, lookup-insert n app.name (record x { app = app }) s.tracker, e))
  ];
  is_tracked = λ g m live. elim (String-discrete g.name app.name) [
    | yes p ↦
        let (y, e, f) = I.is_tracked g m live in
        (
          record x { app = app },
          ground (arith, p, lookup-insert g.name app.name (record x { app = app }) s.tracker),
          same_check s.tracker app.name g.name x y (sym p) tracked e ∙ f,
        )
    | no other ↦
        let (y, e, f) = I.is_tracked g m live in
        (
          y,
          ground
              (arith, other, lookup-insert g.name app.name (record x { app = app }) s.tracker, e),
          f,
        )
  ];
  has_owner = I.has_owner;
}

-- A new check, of an application that was not tracked.
started-Inv :
    (s : State) (app : Application)
    → lookup app.name s.tracker ≡ none
    → Inv s
    → Inv (start_check app s)
unfolding start_check
started-Inv s app untracked I =
    let x : AppContext = record { app = app; check = s.next } in
    record {
      has_check = λ n y e. elim (String-discrete n app.name) [
        | yes p ↦
            let f : x ≡ y = ground (arith, p, lookup-insert n app.name x s.tracker, e) in
            Memᴰ.head (
              ap (λ k. record { id = y.check; name = k; cancelled = false }) p
              ∙ ap (λ id. record { id = id; name = app.name; cancelled = false })
                  (sym (ap (λ (z : AppContext). z.check) f)))
        | no other ↦
            Memᴰ.tail
              (I.has_check n y (ground (arith, other, lookup-insert n app.name x s.tracker, e)))
      ];
      is_tracked = λ g m live. elim (Memᴰ.cases_cons m) [
        | inl p ↦ (
          x,
          ground (arith, ap (λ (c : Check). c.name) p, lookup-insert g.name app.name x s.tracker),
          sym (ap (λ (c : Check). c.id) p),
        )
        | inr m' ↦
            let (y, e, f) = I.is_tracked g m' live in
            let other : g.name ≢ app.name =
              λ r. ground (arith, sym e ∙ ap (λ n. lookup n s.tracker) r ∙ untracked) in
            (y, ground (arith, other, lookup-insert g.name app.name x s.tracker, e), f)
      ];
      has_owner = λ n r e. let (g, m, q) = I.has_owner n r e in (g, Memᴰ.tail m, q);
    }

meet-Inv : (s : State) (app : Application) → Inv s → Inv (meet app s)
unfolding meet
meet-Inv s app I = elim (Option-cases (lookup app.name s.tracker)) [
  | inl p ↦ rw (p, meet) (started-Inv s app p I)
  | inr (x, p) ↦ rw (p, meet) (refreshed-Inv s app x p I)
]

Step-Inv : (s t : State) → Step s t → Inv s → Inv t
Step-Inv s _ (meets app) I = meet-Inv s app I
Step-Inv s _ (removes name) I = remove-Inv s name I
Step-Inv s _ (stores g m status) I = store-Inv s g status m I
Step-Inv s _ (finishes g m cancelled) I = finish-Inv s g I

-- In every state that is reached by any order of the steps of the checks and of the loop over the
-- applications: each tracked application has a check that is not cancelled, each
-- check that is not cancelled is that of a tracked application, and each result is under the name
-- of a check that has not ended.
pub Reachable-Inv : (s : State) → Reachable s → Inv s
Reachable-Inv s at_start = initial-Inv
Reachable-Inv s (by_step t _ reached step) = Step-Inv t s step (Reachable-Inv t reached)
