-- ===== src/Managers/Tracker.antt =====
-- managers/status_app.go: the checks of applications that run beside the loop which starts and
-- stops them. Two steps join what the source does one after another, although a check may run in between: the start, where
-- the context is stored before the `go` statement, and the removal, where the cancellation comes before the `Delete` from
-- the tracker. The states between the two, such as a tracked application whose check is cancelled, are left out.
pub mod Checks
pub mod Removal
pub mod Laws
pub mod Missing
pub mod Round
use kube_bundler.Prelude.{
  ℕ, ◌+◌, String, Bool, true, false, ◌&&◌, Option, none, some, List, [], ◌∷◌, map, ◌≡◌, eqb, ◌==◌,
  if◌then◌else◌, Memᴰ,
}
use kube_bundler.Prelude.Dict.{Dict, lookup, insert, erase}
use kube_bundler.Api.{Application}
use kube_bundler.Managers.Tracker.Missing.{remove_unlisted}
use kube_bundler.Managers.Health.{AppStatus}

-- A goroutine that runs `runApplicationCheck`, and whether its context is cancelled.
pub record Check : Type 0 where
  pub id : ℕ
  pub name : String
  pub cancelled : Bool

-- `AppContext`: the application, and the check that its `CancelFunc` cancels.
pub record AppContext : Type 0 where
  pub app : Application
  pub check : ℕ

-- `appListTracker`, `appStatusResults`, the goroutines, and the number of the next one.
pub record State : Type 0 where
  pub tracker : Dict AppContext
  pub results : Dict AppStatus
  pub checks : List Check
  pub next : ℕ

abbrev pub initial : State
initial = record { tracker = []; results = []; checks = []; next = 0 }

-- `appListTracker.Store` and the `go` statement, in one step.
unfoldable pub start_check : Application → State → State
start_check app s = record s {
  tracker = insert app.name (record { app = app; check = s.next }) s.tracker;
  checks = record { id = s.next; name = app.name; cancelled = false } ∷ s.checks;
  next = s.next + 1;
}

-- The body of the loop over the applications that are listed.
unfoldable pub meet : Application → State → State
unfolding start_check
meet app s = elim (lookup app.name s.tracker) [
  | none ↦ start_check app s
  | some x ↦ record s { tracker = insert app.name (record x { app = app }) s.tracker }
]

-- `CancelFunc`
abbrev pub cancel : ℕ → String → Check → Check
cancel id name g = if eqb g.id id && g.name == name then record g { cancelled = true } else g

-- The removal of an application that is listed no more: `CancelFunc` and `appListTracker.Delete`, in one step.
unfoldable pub remove : String → State → State
remove name s = elim (lookup name s.tracker) [
  | none ↦ s
  | some x ↦ record s {
    tracker = erase name s.tracker;
    checks = map (cancel x.check name) s.checks;
  }
]

-- A check stores its result, also after it was cancelled.
unfoldable pub store : String → AppStatus → State → State
store name status s = record s { results = insert name status s.results }

unfoldable pub without : Check → List Check → List Check
without g [] = []
without g (x ∷ xs) =
    let rest = without g xs in
    if x.cancelled && eqb x.id g.id && x.name == g.name then rest else x ∷ rest

-- A cancelled check deletes the result under its name and ends.
unfoldable pub finish : Check → State → State
unfolding without
finish g s = record s { results = erase g.name s.results; checks = without g s.checks }

-- One round of `updateAppList` after its list: the applications that are there, then the names in
-- the tracker that are not among them.
unfoldable pub meet_all : List Application → State → State
unfolding meet
meet_all [] s = s
meet_all (app ∷ apps) s = meet_all apps (meet app s)

unfoldable pub is_listed : List Application → String → Bool
is_listed [] name = false
is_listed (app ∷ apps) name = if app.name == name then true else is_listed apps name

unfoldable pub remove_missing : List Application → List String → State → State
unfolding remove is_listed remove_unlisted
remove_missing apps = remove_unlisted remove (is_listed apps)

unfoldable pub update_app_list : List Application → State → State
unfolding meet_all remove_missing
update_app_list apps s =
    let s' = meet_all apps s in
    remove_missing apps (map (λ (p : String × AppContext). p.0) s'.tracker) s'

-- What may happen next.
pub data Step (s : State) : State → Type 0 where
  meets : (app : Application) → Step s (meet app s)
  removes : (name : String) → Step s (remove name s)
  stores : (g : Check) → Memᴰ g s.checks → (status : AppStatus) → Step s (store g.name status s)
  finishes : (g : Check) → Memᴰ g s.checks → g.cancelled ≡ true → Step s (finish g s)

pub data Reachable : State → Type 0 where
  at_start : Reachable initial
  by_step : (s t : State) → Reachable s → Step s t → Reachable t
