-- ===== src/Managers/NodeTracker.antt =====
-- managers/status_node.go: the checks of nodes that run beside the loop which starts and stops them. The start of a check
-- and the removal of a node are one step each, although another check may run between the calls of
-- either; the states in between are left out.
pub mod Laws
pub mod Relisted
use kube_bundler.Prelude.{
  ℕ, ◌+◌, String, Bool, true, false, Option, none, some, List, [], ◌∷◌, map, ◌≡◌, ◌==◌,
  if◌then◌else◌, Memᴰ,
}
use kube_bundler.Prelude.Dict.{Dict, lookup, insert, erase}
use kube_bundler.Go.Io.{Result, ok, err, panic}
use kube_bundler.Managers.NodePass.{NodeData, NodeStatus}
use kube_bundler.Managers.Tracker.Missing.{remove_unlisted}
use kube_bundler.Managers.Tracker.{Check, cancel, without}

-- `k0sNode`, `clusterListTracker` (a `CancelFunc` is known by the check that it cancels),
-- `clusterNodesResults`, the goroutines, and the number of the next one.
pub record State : Type 0 where
  pub nodes : Dict NodeData
  pub tracker : Dict ℕ
  pub results : Dict NodeStatus
  pub checks : List Check
  pub next : ℕ

abbrev pub initial : State
initial = record { nodes = []; tracker = []; results = []; checks = []; next = 0 }

-- The `Store` in the tracker and the `go` statement, in one step.
unfoldable pub start_check : String → State → State
start_check name s = record s {
  tracker = insert name s.next s.tracker;
  checks = record { id = s.next; name = name; cancelled = false } ∷ s.checks;
  next = s.next + 1;
}

-- The body of the loop over the nodes that are listed.
unfoldable pub meet : NodeData → State → State
unfolding start_check
meet node s =
    let known = record s { nodes = insert node.name node s.nodes } in
    elim (lookup node.name s.tracker) [ none ↦ start_check node.name known | some id ↦ known ]

-- The removal of a node that is listed no more: the cancellation and three `Delete` calls, in one step.
unfoldable pub remove : String → State → State
remove name s = elim (lookup name s.tracker) [
  | none ↦ s
  | some id ↦ record s {
    nodes = erase name s.nodes;
    tracker = erase name s.tracker;
    results = erase name s.results;
    checks = map (cancel id name) s.checks;
  }
]

-- A check stores its result, under the name that the node gives itself where it answers.
unfoldable pub store : String → NodeStatus → State → State
store name status s = record s { results = insert name status s.results }

-- A cancelled check deletes the node and the result under its name and ends.
unfoldable pub finish : Check → State → State
unfolding without
finish g s = record s {
  nodes = erase g.name s.nodes;
  results = erase g.name s.results;
  checks = without g s.checks;
}

unfoldable pub meet_all : List NodeData → State → State
unfolding meet
meet_all [] s = s
meet_all (node ∷ nodes) s = meet_all nodes (meet node s)

unfoldable pub is_listed : List NodeData → String → Bool
is_listed [] name = false
is_listed (node ∷ nodes) name = if node.name == name then true else is_listed nodes name

unfoldable pub remove_missing : List NodeData → List String → State → State
unfolding remove is_listed remove_unlisted
remove_missing nodes = remove_unlisted remove (is_listed nodes)

-- A round of `updateClusterList` on the answer to its list, up to its pause. An error is logged.
unfoldable pub update_cluster_list : Result (List NodeData) → State → Result State
unfolding meet_all remove_missing
update_cluster_list (ok nodes) s =
    let s' = meet_all nodes s in
    ok (remove_missing nodes (map (λ (p : String × ℕ). p.0) s'.tracker) s')
update_cluster_list (err e) s = ok s
update_cluster_list (panic why) s = panic why

-- No check of the name is left that was cancelled.
abbrev pub Ended : String → State → Type 0
Ended name s = (g : Check) → Memᴰ g s.checks → g.name ≡ name → g.cancelled ≡ false

-- What may happen next, where a node that was removed is listed again only after its check ended.
pub data Step (s : State) : State → Type 0 where
  meets : (node : NodeData) → Ended node.name s → Step s (meet node s)
  removes : (name : String) → Step s (remove name s)
  stores :
      (g : Check)
      → Memᴰ g s.checks
      → (name : String) (status : NodeStatus) → Step s (store name status s)
  finishes : (g : Check) → Memᴰ g s.checks → g.cancelled ≡ true → Step s (finish g s)

pub data Reachable : State → Type 0 where
  at_start : Reachable initial
  by_step : (s t : State) → Reachable s → Step s t → Reachable t
