-- ===== src/Managers/Tracker/Round.antt =====
-- What a round of the loop over the applications leaves in the tracker.
use kube_bundler.Prelude.{
  ◌≡◌, refl, String, Bool, true, false, List, [], ◌∷◌, map, ◌==◌, if◌then◌else◌, inl, inr, arith,
  Option-cases, String-discrete,
}
use kube_bundler.Prelude.Dict.{lookup, lookup-insert, lookup-erase}
use kube_bundler.Api.{Application}
use kube_bundler.Managers.Tracker.Missing.{
  is_some, keys_complete, remove_unlisted-is_tracked, remove_unlisted_keeps,
}
use kube_bundler.Managers.Tracker.{
  AppContext, State, start_check, meet, remove, meet_all, is_listed, remove_missing,
  update_app_list, Reachable, by_step, meets, removes,
}

-- The application has a check.
abbrev pub is_tracked : String → State → Bool
is_tracked name s = is_some (lookup name s.tracker)

is_tracked-meet :
    (name : String) (app : Application) (s : State)
    → is_tracked name (meet app s) ≡ (if app.name == name then true else is_tracked name s)
unfolding meet start_check
is_tracked-meet name app s = elim (Option-cases (lookup app.name s.tracker)) [
  | inl p ↦
      let x : AppContext = record { app = app; check = s.next } in
      rw (p, meet) (ground (arith, lookup-insert name app.name x s.tracker))
  | inr (x, p) ↦
      rw (p, meet) (ground (arith, lookup-insert name app.name (record x { app = app }) s.tracker))
]

is_tracked-meet_all :
    (name : String) (apps : List Application) (s : State)
    → is_tracked name (meet_all apps s) ≡ (if is_listed apps name then true else is_tracked name s)
unfolding meet_all is_listed
is_tracked-meet_all name [] s = refl
is_tracked-meet_all name (app ∷ apps) s =
    ground (arith, is_tracked-meet_all name apps (meet app s), is_tracked-meet name app s)

is_tracked-remove :
    (name other : String) (s : State)
    → is_tracked name (remove other s) ≡ (if name == other then false else is_tracked name s)
unfolding remove
is_tracked-remove name other s = elim (Option-cases (lookup other s.tracker)) [
  | inl p ↦ elim (String-discrete name other) [
    | yes q ↦ ground (arith, q, p, remove)
    | no n ↦ ground (arith, n, p, remove)
  ]
  | inr (x, p) ↦ rw (p, remove) (ground (arith, lookup-erase name other s.tracker))
]

update_app_list-is_tracked :
    (apps : List Application) (s : State) (name : String)
    → is_tracked name (update_app_list apps s) ≡ is_listed apps name
unfolding update_app_list remove_missing
update_app_list-is_tracked apps s name =
    let after = meet_all apps s in
    let gone =
      remove_unlisted-is_tracked is_tracked remove is_tracked-remove (is_listed apps) name
        (map (λ (p : String × AppContext). p.0) after.tracker) after
        (λ unlisted t. keys_complete name after.tracker t) in
    ground (arith, gone, is_tracked-meet_all name apps s)

-- A round is made of steps.
meet_all-Reachable :
    (apps : List Application) (s : State) → Reachable s → Reachable (meet_all apps s)
unfolding meet_all
meet_all-Reachable [] s r = r
meet_all-Reachable (app ∷ apps) s r =
    meet_all-Reachable apps (meet app s) (by_step s (meet app s) r (meets app))

-- A round of the loop over the applications that nothing interrupts leads from a reachable state to
-- a reachable state, in which exactly the applications that were listed have a check.
update_app_list-Reachable :
    (apps : List Application) (s : State)
    → Reachable s
    → Reachable (update_app_list apps s)
      × ((name : String) → is_tracked name (update_app_list apps s) ≡ is_listed apps name)
unfolding update_app_list remove_missing
update_app_list-Reachable apps s r = (
  remove_unlisted_keeps remove Reachable (λ name t rt. by_step t (remove name t) rt (removes name))
      (is_listed apps) (map (λ (p : String × AppContext). p.0) (meet_all apps s).tracker)
      (meet_all apps s) (meet_all-Reachable apps s r),
  update_app_list-is_tracked apps s,
)
