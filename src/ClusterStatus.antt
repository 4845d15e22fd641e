-- ===== src/ClusterStatus.antt =====
-- cmd/cluster-status/main.go: the process on each node that asks the other nodes whether they are
-- online, and answers the status manager.
pub mod Probe
pub mod Laws
pub mod Round
pub mod Follow
use kube_bundler.Prelude.{
  ℕ, ◌+◌, String, ◌<>◌, Bool, true, false, Option, none, some, List, [], ◌∷◌, map, ◌≡◌, ◌≢◌, ◌==◌,
  if◌then◌else◌, Memᴰ,
}
use kube_bundler.Prelude.Dict.{Dict, lookup, insert, erase}
use kube_bundler.Prelude.Int.{ℤ, eqb_ℤ}
use kube_bundler.Go.Io.{
  Io, Result, ok, err, panic, pure, lift, attempt, annotate, finally, ◌>>=◌, ◌>>◌,
}
use kube_bundler.Go.Errors.{Error}
use kube_bundler.Managers.Health.{DetailStatus}
use kube_bundler.Managers.NodePass.{NodeInfo, NodeStatus}
use kube_bundler.Managers.Tracker.{Check, cancel, without}
use kube_bundler.Managers.Tracker.Missing.{remove_unlisted}
use kube_bundler.ClusterStatus.Probe.{healthy, not_healthy, judge_online, all_healthy}

-- `NodeNetworkStatus`, `NodeStatusResults`, `nodeListTracker` (a `CancelFunc` is known by the
-- goroutine that it cancels), the goroutines, and the number of the next one.
pub record State : Type 0 where
  pub network : Dict DetailStatus
  pub results : Dict NodeStatus
  pub tracker : Dict ℕ
  pub checks : List Check
  pub next : ℕ

abbrev pub initial : State
initial = record { network = []; results = []; tracker = []; checks = []; next = 0 }

-- `getNetworkStatus` on what `Range` gives.
unfoldable pub get_network_status : Dict DetailStatus → String × List DetailStatus
unfolding all_healthy
get_network_status ranged =
    let ds = map (λ (p : String × DetailStatus). p.1) ranged in (all_healthy ds, ds)

-- A round of `getStatus`: the result that is stored.
unfoldable pub own_status : NodeInfo → Dict DetailStatus → NodeStatus
unfolding get_network_status
own_status node ranged = record {
  node = node;
  status = "";
  condition = [];
  network = (get_network_status ranged).1;
  preflight = [];
}

unfoldable pub store_own : NodeInfo → Dict DetailStatus → State → State
unfolding own_status
store_own node ranged s = record s { results = insert node.name (own_status node ranged) s.results }

-- The end of a round of `checkNodeOnline`.
unfoldable pub store : String → DetailStatus → State → State
store name d s = record s { network = insert name d s.network }

-- A cancelled `checkNodeOnline` deletes the status under its name and ends.
unfoldable pub finish : Check → State → State
unfolding without
finish g s = record s { network = erase g.name s.network; checks = without g s.checks }

-- The goroutine of a node runs `getStatus` if it is the process's own node, else `checkNodeOnline`: the step relation
-- has one of its steps for each, under the condition on the name.
unfoldable pub start_check : String → State → State
start_check name s = record s {
  tracker = insert name s.next s.tracker;
  checks = record { id = s.next; name = name; cancelled = false } ∷ s.checks;
  next = s.next + 1;
}

-- The body of the loop over the nodes that are listed.
unfoldable pub meet : NodeInfo → State → State
unfolding start_check
meet node s = elim (lookup node.name s.tracker) [ none ↦ start_check node.name s | some id ↦ s ]

-- The removal of a node that is listed no more.
unfoldable pub remove : String → State → State
remove name s = elim (lookup name s.tracker) [
  | none ↦ s
  | some id ↦ record s {
    network = erase name s.network;
    tracker = erase name s.tracker;
    checks = map (cancel id name) s.checks;
  }
]

unfoldable pub meet_all : List NodeInfo → State → State
unfolding meet
meet_all [] s = s
meet_all (node ∷ nodes) s = meet_all nodes (meet node s)

unfoldable pub is_listed : List NodeInfo → String → Bool
is_listed [] name = false
is_listed (node ∷ nodes) name = if node.name == name then true else is_listed nodes name

-- A round of `updateClusterNodes` on the answer to its request, up to its pause.
unfoldable pub update_cluster_nodes : Result (List NodeInfo) → State → Result State
unfolding meet_all remove is_listed remove_unlisted
update_cluster_nodes (ok nodes) s =
    let s' = meet_all nodes s in
    ok (remove_unlisted remove (is_listed nodes) (map (λ (p : String × ℕ). p.0) s'.tracker) s')
update_cluster_nodes (err e) s = ok s
update_cluster_nodes (panic why) s = panic why

-- `retrieveNodeStatus`: the body of the answer, which is empty if there is no result, or none that
-- can be encoded.
unfoldable pub retrieve_node_status : String → (NodeStatus → Result String) → State → Result String
retrieve_node_status own encode s = elim (lookup own s.results) [
  | none ↦ ok ""
  | some status ↦ elim (encode status) [ ok body ↦ ok body | err e ↦ ok "" | panic why ↦ panic why ]
]

-- The paths that are served, and what is written there: "/online" answers with nothing.
unfoldable pub serve :
    String → (NodeStatus → Result String) → String → State → Option (Result String)
unfolding retrieve_node_status
serve own encode path s =
    if path == "/online"
    then some (ok "")
    else if path == "/status"
    then some (retrieve_node_status own encode s)
    else none

-- The start of `updateClusterNodes`, and `http.ListenAndServe`, whose error is logged.
unfoldable pub main :
    {W : Type 0}
    → String
    → String
    → (NodeStatus → Result String)
    → (W → W)
    → (String → (String → State → Option (Result String)) → Io W (Unit {0}))
    → Io W (Unit {0})
unfolding serve
main own port encode go listen w =
    (attempt (listen (":" <> port) (serve own encode)) >>= λ r. pure tt) (go w)

-- What may happen next on the node that is called `own`, where
-- `getStatus` runs and does not end.
pub data Step (own : String) (s : State) : State → Type 0 where
  meets : (node : NodeInfo) → Step own s (meet node s)
  removes : (name : String) → Step own s (remove name s)
  stores :
      (g : Check)
      → Memᴰ g s.checks
      → g.name ≢ own
      → (r : Result ℤ) (d : DetailStatus) → judge_online g.name r ≡ ok d
      → Step own s (store g.name d s)
  stores_own :
      (g : Check)
      → Memᴰ g s.checks
      → g.name ≡ own
      → (node : NodeInfo) → node.name ≡ own
      → (ranged : Dict DetailStatus) → Step own s (store_own node ranged s)
  finishes :
      (g : Check) → Memᴰ g s.checks → g.name ≢ own → g.cancelled ≡ true → Step own s (finish g s)

pub data Reachable (own : String) : State → Type 0 where
  at_start : Reachable own initial
  by_step : (s t : State) → Reachable own s → Step own s t → Reachable own t
