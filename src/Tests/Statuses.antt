-- ===== src/Tests/Statuses.antt =====
-- The checks of applications that run beside each other.
use kube_bundler.Prelude.{refl, [], false, Memᴰ}
use kube_bundler.Prelude.Dict.{lookup}
use kube_bundler.Api.{Application}
use kube_bundler.Managers.Health.{AppStatus}
use kube_bundler.Managers.Tracker.{
  Check, State, initial, meet, remove, store, meets, removes, stores, Reachable, at_start, by_step,
}
use kube_bundler.Managers.Tracker.Laws.{Reachable-Inv}
use kube_bundler.Managers.Tracker.Removal.{Inv}
use kube_bundler.Tests.Client.{application}

abbrev web : Application
web = application [] "web"

abbrev check : Check
check = record { id = 0; name = "web"; cancelled = false }

abbrev status : AppStatus
status = record { app = "web"; endpoints = []; last_updated = 0 }

-- The application is listed, checked, removed, and listed again before its check has ended.
abbrev again : State
again = meet web (remove "web" (store "web" status (meet web initial)))

again-Reachable : Reachable again
unfolding meet lookup
again-Reachable =
    by_step (remove "web" (store "web" status (meet web initial))) _
      (by_step (store "web" status (meet web initial)) _
        (by_step (meet web initial) _ (by_step initial _ at_start (meets web))
          (stores check (Memᴰ.head refl) status))
        (removes "web"))
      (meets web)

Reachable-Inv_example : Inv again
Reachable-Inv_example = Reachable-Inv again again-Reachable
