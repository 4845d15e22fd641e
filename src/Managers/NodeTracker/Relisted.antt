-- ===== src/Managers/NodeTracker/Relisted.antt =====
-- A node that is listed again while the check of its first listing has not ended.
use kube_bundler.Prelude.{ℕ, ◌≡◌, refl, ap, ◌∙◌, String, none, some, map, arith}
use kube_bundler.Prelude.Dict.{lookup, insert, erase, lookup-insert, lookup-erase}
use kube_bundler.Go.Io.{panic}
use kube_bundler.Managers.NodePass.{NodeData, loaded}
use kube_bundler.Managers.Tracker.{Check, cancel}
use kube_bundler.Managers.NodeTracker.{State, start_check, meet, remove, finish}

after_remove : State → String → ℕ → State
after_remove s name id = record s {
  nodes = erase name s.nodes;
  tracker = erase name s.tracker;
  results = erase name s.results;
  checks = map (cancel id name) s.checks;
}

remove-tracked :
    (s : State) (name : String) (id : ℕ)
    → lookup name s.tracker ≡ some id
    → remove name s ≡ after_remove s name id
unfolding remove after_remove
remove-tracked s name id tracked = rw (tracked, remove) refl

meet-untracked :
    (s : State) (node : NodeData)
    → lookup node.name s.tracker ≡ none
    → meet node s ≡ start_check node.name (record s { nodes = insert node.name node s.nodes })
unfolding meet
meet-untracked s node untracked = rw (untracked, meet) refl

-- A node that is tracked, is removed, and is listed again before its first check has ended is not stored
-- once that check has ended: the next round of its new check panics.
relisted_panics :
    (s : State) (node : NodeData) (id : ℕ) (g : Check)
    → lookup node.name s.tracker ≡ some id
    → g.name ≡ node.name
    → (lookup node.name (finish g (meet node (remove node.name s))).tracker ≡ some s.next)
      × (loaded (lookup node.name (finish g (meet node (remove node.name s))).nodes)
          ≡ panic "interface conversion: interface {} is nil, not v1.Node")
unfolding finish loaded start_check after_remove
relisted_panics s node id g tracked same =
    let t = after_remove s node.name id in
    let untracked : lookup node.name t.tracker ≡ none =
      ground (arith, lookup-erase node.name node.name s.tracker) in
    let there : meet node (remove node.name s)
        ≡ start_check node.name (record t { nodes = insert node.name node t.nodes }) =
      ap (meet node) (remove-tracked s node.name id tracked) ∙ meet-untracked t node untracked in
    let lost : lookup node.name (erase g.name (insert node.name node t.nodes)) ≡ none =
      ground (arith, same, lookup-erase node.name g.name (insert node.name node t.nodes)) in
    (
      ap (λ (u : State). lookup node.name (finish g u).tracker) there
          ∙ ground (arith, lookup-insert node.name node.name s.next t.tracker),
      ap (λ (u : State). loaded (lookup node.name (finish g u).nodes)) there ∙ ap loaded lost,
    )
