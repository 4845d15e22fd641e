-- ===== src/Tests/Daemons.antt =====
-- The process of a node against a status manager that holds the results of two nodes.
use kube_bundler.Prelude.{
  ◌≡◌, ◌≢◌, ◌↔◌, refl, ap, ℕ, String, true, false, Option, none, some, List, [], ◌∷◌, arith, Memᴰ,
  String-discrete, ==_iff,
}
use kube_bundler.Prelude.Dict.{lookup, insert}
use kube_bundler.Prelude.Int.{ℤ}
use kube_bundler.Go.Io.{ok}
use kube_bundler.Managers.Health.{DetailStatus}
use kube_bundler.Managers.NodePass.{NodeInfo}
use kube_bundler.Managers.StatusServer.{Results, Encoding, Answer, serve, retrieve_cluster_nodes}
use kube_bundler.Managers.Tracker.{Check}
use kube_bundler.ClusterStatus.Probe.{StatusClient, judge_online, get_cluster_nodes}
use kube_bundler.ClusterStatus.{
  State, initial, meet, store, start_check, update_cluster_nodes, meets, stores, Reachable,
  at_start, by_step,
}
use kube_bundler.ClusterStatus.Laws.{IsHeld, Reachable-IsHeld}
use kube_bundler.ClusterStatus.Round.{is_tracked}
use kube_bundler.ClusterStatus.Follow.{HasResult, Answers, get_cluster_nodes-Follows}

abbrev node : NodeInfo
node = record { name = "b"; ip_address = "10.0.0.2"; role = "worker" }

abbrev told : DetailStatus
told = record { name = "b"; value = "online"; healthy = "true" }

abbrev check : Check
check = record { id = 0; name = "b"; cancelled = false }

abbrev asked : State
asked = store "b" told (meet node initial)

b_not_a : node.name ≢ "a"
unfolding String-discrete
b_not_a e = ground (arith, (==_iff "b" "a").1 e)

asked-Reachable : Reachable "a" asked
unfolding meet start_check lookup judge_online
asked-Reachable =
    by_step (meet node initial) _ (by_step initial _ at_start (meets node))
      (stores check (Memᴰ.head refl) b_not_a (ok (ℤ.pos 200)) told refl)

Reachable-IsHeld_example : IsHeld "a" asked "b" told
unfolding store lookup insert meet start_check String-discrete
Reachable-IsHeld_example = Reachable-IsHeld "a" asked "b" told asked-Reachable refl

abbrev results : Results
results = record {
  apps = [];
  nodes =
      (
        "b",
        record { node = node; status = "Healthy"; condition = []; network = []; preflight = [] },
      )
      ∷ [];
  resources = [];
}

-- What is written is the list itself.
abbrev encoding : Encoding (List NodeInfo)
encoding = record {
  encode_nodes = λ nodes. nodes;
  encode_statuses = λ statuses. [];
  encode_apps = λ apps. [];
  encode_resources = λ resources. [];
  ranged_nodes = λ entries. entries;
  ranged_apps = λ entries. entries;
}

abbrev client : StatusClient ℕ
client = record {
  get_nodes = λ url n. (ok 7, n);
  decode_nodes = λ body n. (ok (node ∷ []), n);
  close_body = λ body n. (ok tt, n);
  get_code = λ url n. (ok (ℤ.pos 200), n);
  sysctl = λ param n. (ok "1", n);
  message = λ e. "";
  trim_newline = λ text. text;
}

abbrev body_of : Option (Answer (List NodeInfo)) → List NodeInfo
body_of none = []
body_of (some answer) = answer.body

answered : Answers encoding client ok results 0
unfolding serve String-discrete retrieve_cluster_nodes
answered answer h =
    let body : (node ∷ []) ≡ answer.body =
      ap (λ (o : Option (Answer (List NodeInfo))). body_of o) h in
    (7, 0, 0, refl, ap (λ nodes. (ok nodes, 0)) body)

get_cluster_nodes-Follows_example :
    (nodes : List NodeInfo) × (w' : ℕ) × (t : State) × (get_cluster_nodes client 0 ≡ (ok nodes, w'))
    × (update_cluster_nodes (ok nodes) asked ≡ ok t)
    × Reachable "a" t
    × ((name : String) → (is_tracked name t ≡ true) ↔ HasResult name results)
get_cluster_nodes-Follows_example =
    get_cluster_nodes-Follows encoding client ok (λ r x. (λ m. m, λ m. m)) (λ nodes. refl) results 0
      answered "a" asked asked-Reachable
