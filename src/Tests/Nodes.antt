-- ===== src/Tests/Nodes.antt =====
-- The checks of nodes that run beside each other.
use kube_bundler.Prelude.{◌≡◌, refl, String-discrete, some, [], ◌∷◌, false, Memᴰ}
use kube_bundler.Prelude.Dict.{lookup, insert}
use kube_bundler.Go.Io.{ok}
use kube_bundler.Managers.NodePass.{NodeData, loaded}
use kube_bundler.Managers.Tracker.{Check}
use kube_bundler.Managers.NodeTracker.{
  State, initial, meet, start_check, meets, Reachable, at_start, by_step,
}
use kube_bundler.Managers.NodeTracker.Laws.{Reachable-loaded}
use mathlib.Core.List.Memᴰ

abbrev node : NodeData
node = record { name = "a"; addresses = "10.0.0.1" ∷ []; labels = []; conditions = [] }

abbrev check : Check
check = record { id = 0; name = "a"; cancelled = false }

abbrev listed : State
listed = meet node initial

listed-Reachable : Reachable listed
listed-Reachable = by_step initial _ at_start (meets node (λ g m e. absurd (Memᴰ.not-nil m)))

check_there : Memᴰ check listed.checks
unfolding meet start_check lookup
check_there = Memᴰ.head refl

Reachable-loaded_example : (n : NodeData) × (loaded (lookup "a" listed.nodes) ≡ ok n)
Reachable-loaded_example = Reachable-loaded listed check listed-Reachable check_there refl

listed_tracked : lookup "a" listed.tracker ≡ some 0
unfolding meet start_check lookup insert String-discrete
listed_tracked = refl
