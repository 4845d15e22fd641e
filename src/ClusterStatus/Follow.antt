-- ===== src/ClusterStatus/Follow.antt =====
-- The process on a node against the server of the status manager.
use kube_bundler.Prelude.{String-discrete}
use kube_bundler.Prelude.{
  ◌≡◌, ◌↔◌, refl, sym, ap, ◌∙◌, ℕ, String, ◌<>◌, true, some, List, [], ◌∷◌, map, ◌==◌, inl, inr,
  arith, Memᴰ, Bool-cases,
}
use mathlib.Core.List.Memᴰ
use kube_bundler.Go.Io.{Result, ok}
use kube_bundler.Managers.NodePass.{NodeInfo, NodeStatus}
use kube_bundler.Managers.StatusServer.{Results, Encoding, Answer, serve, retrieve_cluster_nodes}
use kube_bundler.ClusterStatus.Probe.{StatusClient, health_status_deployment_url, get_cluster_nodes}
use kube_bundler.ClusterStatus.{State, is_listed, update_cluster_nodes, Reachable}
use kube_bundler.ClusterStatus.Round.{is_tracked, update_cluster_nodes-IsFollowed}

-- A result of the status manager on a node of the name.
abbrev pub HasResult : String → Results → Type 0
HasResult name r = (entry : String × NodeStatus) × Memᴰ entry r.nodes × (entry.1.node.name ≡ name)

is_listed_iff :
    (name : String) (nodes : List NodeInfo)
    → (is_listed nodes name ≡ true) ↔ ((n : NodeInfo) × Memᴰ n nodes × (n.name ≡ name))
unfolding is_listed
is_listed_iff name [] = (λ h. ground (arith, h), λ (n, m, q). absurd (Memᴰ.not-nil m))
is_listed_iff name (node ∷ nodes) = elim (Bool-cases (node.name == name)) [
  | inl p ↦ (λ h. (node, Memᴰ.head refl, ground (arith, p)), λ h. rw p refl)
  | inr p ↦ (
    λ h. let (n, m, q) = (is_listed_iff name nodes).0 (rw p at h) in (n, Memᴰ.tail m, q),
    λ (n, m, q). elim (Memᴰ.cases_cons m) [
      | inl e ↦ ground (arith, p, ap (λ (x : NodeInfo). x.name) e, q)
      | inr m' ↦ rw p ((is_listed_iff name nodes).1 (n, m', q))
    ],
  )
]

module _ {W B : Type 0} (e : Encoding B) (c : StatusClient W)
    (decode : B → Result (List NodeInfo)) where
  -- A `Range` meets the entries of a map that does not change, and nothing else.
  abbrev pub RangeVisits : Type 0
  RangeVisits =
      (r : Results) (x : String × NodeStatus) → Memᴰ x (e.ranged_nodes r.nodes) ↔ Memᴰ x r.nodes

  -- What is encoded is decoded again.
  abbrev pub Decodes : Type 0
  Decodes = (nodes : List NodeInfo) → decode (e.encode_nodes nodes) ≡ ok nodes

  -- The request reaches a server that holds the results, and its answer is read and decoded whole.
  abbrev pub Answers : Results → W → Type 0
  Answers r w =
      (answer : Answer B)
      → serve e "/cluster-nodes" r ≡ some answer
      → (body : ℕ) × (u v : W) × (c.get_nodes (health_status_deployment_url <> "cluster-nodes") w
          ≡ (ok body, u))
        × (c.decode_nodes body u ≡ (decode answer.body, v))

  -- The request succeeds with the nodes of the results.
  get_cluster_nodes-answer :
      Decodes
      → (r : Results) (w : W) → Answers r w
      → (w' : W) × (get_cluster_nodes c w
          ≡ (ok (map (λ (p : String × NodeStatus). p.1.node) (e.ranged_nodes r.nodes)), w'))
  unfolding get_cluster_nodes serve String-discrete retrieve_cluster_nodes
  get_cluster_nodes-answer decodes r w answers =
      let (body, u, v, p, q) = answers (retrieve_cluster_nodes e r) refl in
      let d = decodes (map (λ (p : String × NodeStatus). p.1.node) (e.ranged_nodes r.nodes)) in
      ((c.close_body body v).1, rw (p, q, d) refl)

  ranged_iff :
      RangeVisits
      → (r : Results) (name : String)
      → (is_listed (map (λ (p : String × NodeStatus). p.1.node) (e.ranged_nodes r.nodes)) name
          ≡ true)
        ↔ HasResult name r
  ranged_iff visits r name =
      let node_of : String × NodeStatus → NodeInfo = λ p. p.1.node in
      let same = is_listed_iff name (map node_of (e.ranged_nodes r.nodes)) in
      (
        λ h.
            let (n, m, q) = same.0 h in
            let (x, mx, p) = Memᴰ.of_map node_of (e.ranged_nodes r.nodes) m in
            (x, (visits r x).0 mx, ap (λ (y : NodeInfo). y.name) p ∙ q),
        λ (x, m, q). same.1 (node_of x, Memᴰ.map node_of ((visits r x).1 m), q),
      )

  -- Where a `Range` visits the entries of the results of the status manager, the nodes can be decoded from what encodes them, and the request
  -- is answered by the handler of the status manager: from every state that the process reaches, a round gets the
  -- nodes and leads to a reachable state, in which a goroutine is known for exactly the nodes on which the status manager holds a result.
  pub get_cluster_nodes-Follows :
      RangeVisits
      → Decodes
      → (r : Results) (w : W) → Answers r w
      → (own : String) (s : State) → Reachable own s
      → (nodes : List NodeInfo) × (w' : W) × (t : State) × (get_cluster_nodes c w ≡ (ok nodes, w'))
        × (update_cluster_nodes (ok nodes) s ≡ ok t)
        × Reachable own t
        × ((name : String) → (is_tracked name t ≡ true) ↔ HasResult name r)
  get_cluster_nodes-Follows visits decodes r w answers own s reached =
      let (w', got) = get_cluster_nodes-answer decodes r w answers in
      let nodes = map (λ (p : String × NodeStatus). p.1.node) (e.ranged_nodes r.nodes) in
      let (t, round, followed) = update_cluster_nodes-IsFollowed own nodes s reached in
      (
        nodes,
        w',
        t,
        got,
        round,
        followed.is_reached,
        λ name. (
          λ h. (ranged_iff visits r name).0 (sym (followed.is_exact name) ∙ h),
          λ h. followed.is_exact name ∙ (ranged_iff visits r name).1 h,
        ),
      )
