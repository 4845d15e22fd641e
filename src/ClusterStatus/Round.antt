-- ===== src/ClusterStatus/Round.antt =====
-- What a round of the loop over the nodes leaves in the tracker, and how it follows the status manager.
use kube_bundler.Prelude.{
  ◌≡◌, refl, sym, ap, ◌∙◌, ℕ, String, Bool, true, false, some, List, [], ◌∷◌, map, ◌==◌,
  if◌then◌else◌, inl, inr, arith, Option-cases, String-discrete,
}
use kube_bundler.Prelude.Dict.{lookup, lookup-insert, lookup-erase}
use kube_bundler.Go.Io.{ok}
use kube_bundler.Managers.NodePass.{NodeInfo}
use kube_bundler.Managers.Tracker.Missing.{
  is_some, keys_complete, remove_unlisted, remove_unlisted-is_tracked, remove_unlisted_keeps,
}
use kube_bundler.ClusterStatus.{
  State, start_check, meet, remove, meet_all, is_listed, update_cluster_nodes, meets, removes,
  Reachable, by_step,
}

-- A goroutine for the node is known.
abbrev pub is_tracked : String → State → Bool
is_tracked name s = is_some (lookup name s.tracker)

is_tracked-meet :
    (name : String) (node : NodeInfo) (s : State)
    → is_tracked name (meet node s) ≡ (if node.name == name then true else is_tracked name s)
unfolding meet start_check
is_tracked-meet name node s = elim (Option-cases (lookup node.name s.tracker)) [
  | inl p ↦ rw (p, meet) (ground (arith, lookup-insert name node.name s.next s.tracker))
  | inr (id, p) ↦ elim (String-discrete node.name name) [
    | yes q ↦
        let here : lookup name s.tracker ≡ some id = ap (λ n. lookup n s.tracker) (sym q) ∙ p in
        rw (p, meet) (ground (arith, q, here))
    | no n ↦ rw (p, meet) (ground (arith, n))
  ]
]

is_tracked-meet_all :
    (name : String) (nodes : List NodeInfo) (s : State)
    → is_tracked name (meet_all nodes s)
      ≡ (if is_listed nodes name then true else is_tracked name s)
unfolding meet_all is_listed
is_tracked-meet_all name [] s = refl
is_tracked-meet_all name (node ∷ nodes) s =
    ground (arith, is_tracked-meet_all name nodes (meet node s), is_tracked-meet name node s)

is_tracked-remove :
    (name other : String) (s : State)
    → is_tracked name (remove other s) ≡ (if name == other then false else is_tracked name s)
unfolding remove
is_tracked-remove name other s = elim (Option-cases (lookup other s.tracker)) [
  | inl p ↦ elim (String-discrete name other) [
    | yes q ↦ ground (arith, q, p, remove)
    | no n ↦ ground (arith, n, p, remove)
  ]
  | inr (id, p) ↦ rw (p, remove) (ground (arith, lookup-erase name other s.tracker))
]

meet_all-Reachable :
    (own : String) (nodes : List NodeInfo) (s : State)
    → Reachable own s
    → Reachable own (meet_all nodes s)
unfolding meet_all
meet_all-Reachable own [] s r = r
meet_all-Reachable own (node ∷ nodes) s r =
    meet_all-Reachable own nodes (meet node s) (by_step s (meet node s) r (meets node))

-- A round that gets the nodes leads to a reachable state that tracks exactly them.
pub record IsFollowed (own : String) (listed : String → Bool) (t : State) : Type 0 where
  pub is_reached : Reachable own t
  pub is_exact : (name : String) → is_tracked name t ≡ listed name

pub update_cluster_nodes-IsFollowed :
    (own : String) (nodes : List NodeInfo) (s : State)
    → Reachable own s
    → (t : State) × (update_cluster_nodes (ok nodes) s ≡ ok t) × IsFollowed own (is_listed nodes) t
unfolding update_cluster_nodes
update_cluster_nodes-IsFollowed own nodes s r =
    let after = meet_all nodes s in
    let names = map (λ (p : String × ℕ). p.0) after.tracker in
    (
      remove_unlisted remove (is_listed nodes) names after,
      refl,
      record {
        is_reached =
            remove_unlisted_keeps remove (Reachable own)
              (λ name t rt. by_step t (remove name t) rt (removes name)) (is_listed nodes) names
              after (meet_all-Reachable own nodes s r);
        is_exact = λ name. ground (
          arith,
          remove_unlisted-is_tracked is_tracked remove is_tracked-remove (is_listed nodes) name
              names after (λ unlisted t. keys_complete name after.tracker t),
          is_tracked-meet_all name nodes s,
        );
      },
    )
