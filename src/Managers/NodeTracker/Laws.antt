-- ===== src/Managers/NodeTracker/Laws.antt =====
-- Which nodes are stored in a reachable state.
use kube_bundler.Prelude.{
  ℕ, ◌≡◌, ◌≢◌, sym, ap, ◌∙◌, String, true, false, ◌&&◌, none, some, map, eqb, ◌==◌, Memᴰ, inl, inr,
  arith, Option-cases, Bool-cases, String-discrete,
}
use mathlib.Core.List.Memᴰ
use mathlib.Core.Path.{subst}
use kube_bundler.Prelude.Dict.{lookup, insert, erase, lookup-insert, lookup-erase}
use kube_bundler.Go.Io.{ok}
use kube_bundler.Managers.NodePass.{NodeData, loaded}
use kube_bundler.Managers.Tracker.{Check, cancel}
use kube_bundler.Managers.Tracker.Checks.{without-of, cancel-name, cancel-live}
use kube_bundler.Managers.NodeTracker.{
  State, initial, start_check, meet, remove, store, finish, Ended, Step, meets, removes, stores,
  finishes, Reachable, at_start, by_step,
}

-- The node of the name is stored.
abbrev Stored : String → State → Type 0
Stored name s = (node : NodeData) × (lookup name s.nodes ≡ some node)

-- A check that is not cancelled is the tracked one of its node, a node with a cancelled check is
-- not tracked, and a tracked node is stored.
pub record NodeInv (s : State) : Type 0 where
  pub is_tracked :
      (g : Check) → Memᴰ g s.checks → g.cancelled ≡ false → lookup g.name s.tracker ≡ some g.id
  pub is_gone : (g : Check) → Memᴰ g s.checks → g.cancelled ≡ true → lookup g.name s.tracker ≡ none
  pub is_stored : (name : String) (id : ℕ) → lookup name s.tracker ≡ some id → Stored name s

initial-NodeInv : NodeInv initial
unfolding lookup
initial-NodeInv = record {
  is_tracked = λ g m. absurd (Memᴰ.not-nil m);
  is_gone = λ g m. absurd (Memᴰ.not-nil m);
  is_stored = λ name id e. ground (arith, e);
}

finish-NodeInv :
    (s : State) (g : Check)
    → Memᴰ g s.checks
    → g.cancelled ≡ true
    → NodeInv s
    → NodeInv (finish g s)
unfolding finish
finish-NodeInv s g mine cancelled I = record {
  is_tracked = λ h m. I.is_tracked h (without-of g h s.checks m);
  is_gone = λ h m. I.is_gone h (without-of g h s.checks m);
  is_stored = λ name id e. elim (String-discrete name g.name) [
    | yes p ↦ ground (arith, p, I.is_gone g mine cancelled, e)
    | no n ↦
        let (node, stored) = I.is_stored name id e in
        (node, ground (arith, n, lookup-erase name g.name s.nodes, stored))
  ];
}

-- The node is stored anew, and nothing else changes.
known-NodeInv :
    (s : State) (node : NodeData)
    → NodeInv s
    → NodeInv (record s { nodes = insert node.name node s.nodes })
known-NodeInv s node I = record {
  is_tracked = I.is_tracked;
  is_gone = I.is_gone;
  is_stored = λ name id e. elim (String-discrete name node.name) [
    | yes p ↦ (node, ground (arith, p, lookup-insert name node.name node s.nodes))
    | no n ↦
        let (other, stored) = I.is_stored name id e in
        (other, ground (arith, n, lookup-insert name node.name node s.nodes, stored))
  ];
}

-- A new check, of a node that is stored and not tracked, and has no cancelled check.
started-NodeInv :
    (s : State) (name : String)
    → lookup name s.tracker ≡ none
    → Stored name s
    → Ended name s
    → NodeInv s
    → NodeInv (start_check name s)
unfolding start_check
started-NodeInv s name untracked (node, here) ended I = record {
  is_tracked = λ g m live. elim (Memᴰ.cases_cons m) [
    | inl p ↦ ground (
      arith,
      ap (λ (c : Check). c.name) p,
      ap (λ (c : Check). c.id) p,
      lookup-insert g.name name s.next s.tracker,
    )
    | inr m' ↦
        let e = I.is_tracked g m' live in
        let other : g.name ≢ name =
          λ r. ground (arith, sym e ∙ ap (λ n. lookup n s.tracker) r ∙ untracked) in
        ground (arith, other, lookup-insert g.name name s.next s.tracker, e)
  ];
  is_gone = λ g m gone. elim (Memᴰ.cases_cons m) [
    | inl p ↦ ground (arith, ap (λ (c : Check). c.cancelled) p, gone)
    | inr m' ↦
        let other : g.name ≢ name = λ r. ground (arith, ended g m' r, gone) in
        ground (arith, other, lookup-insert g.name name s.next s.tracker, I.is_gone g m' gone)
  ];
  is_stored = λ n id e. elim (String-discrete n name) [
    | yes p ↦ (node, ap (λ k. lookup k s.nodes) p ∙ here)
    | no other ↦ I.is_stored n id (ground (arith, other, lookup-insert n name s.next s.tracker, e))
  ];
}

meet-NodeInv : (s : State) (node : NodeData) → Ended node.name s → NodeInv s → NodeInv (meet node s)
unfolding meet
meet-NodeInv s node ended I = elim (Option-cases (lookup node.name s.tracker)) [
  | inl p ↦
      let here : Stored node.name (record s { nodes = insert node.name node s.nodes }) =
        (node, ground (arith, lookup-insert node.name node.name node s.nodes)) in
      rw (p, meet)
        (started-NodeInv (record s { nodes = insert node.name node s.nodes }) node.name p here ended
          (known-NodeInv s node I))
  | inr (id, p) ↦ rw (p, meet) (known-NodeInv s node I)
]

module _ (s : State) (name : String) (id : ℕ) (tracked : lookup name s.tracker ≡ some id)
    (I : NodeInv s) where
  removed_live :
      (g h : Check)
      → cancel id name g ≡ h
      → h.cancelled ≡ false
      → Memᴰ g s.checks
      → lookup g.name (erase name s.tracker) ≡ some g.id
  removed_live g h q live m =
      let (same, p) = cancel-live id name g h q live in
      let e = I.is_tracked g m (ap (λ (c : Check). c.cancelled) same ∙ live) in
      elim (String-discrete g.name name) [
        | yes r ↦
            let f : some g.id ≡ some id = sym e ∙ ap (λ n. lookup n s.tracker) r ∙ tracked in
            ground (arith, p, r, f)
        | no n ↦ ground (arith, n, lookup-erase g.name name s.tracker, e)
      ]

  removed_cancelled :
      (g h : Check)
      → cancel id name g ≡ h
      → h.cancelled ≡ true
      → Memᴰ g s.checks
      → lookup g.name (erase name s.tracker) ≡ none
  removed_cancelled g h q gone m = elim (Bool-cases (eqb g.id id && g.name == name)) [
    | inl p ↦ ground (arith, p, lookup-erase g.name name s.tracker)
    | inr p ↦
        let same : g ≡ h = rw p at q in
        let e = I.is_gone g m (ap (λ (c : Check). c.cancelled) same ∙ gone) in
        ground (arith, lookup-erase g.name name s.tracker, e)
  ]

  removed-NodeInv : NodeInv (record s {
    nodes = erase name s.nodes;
    tracker = erase name s.tracker;
    results = erase name s.results;
    checks = map (cancel id name) s.checks;
  })
  removed-NodeInv = record {
    is_tracked = λ h m live.
        let (g, mg, q) = Memᴰ.of_map (cancel id name) s.checks m in
        let (same, p) = cancel-live id name g h q live in
        subst (λ (c : Check). lookup c.name (erase name s.tracker) ≡ some c.id) same
          (removed_live g h q live mg);
    is_gone = λ h m gone.
        let (g, mg, q) = Memᴰ.of_map (cancel id name) s.checks m in
        let named : g.name ≡ h.name = sym (cancel-name id name g) ∙ ap (λ (c : Check). c.name) q in
        subst (λ n. lookup n (erase name s.tracker) ≡ none) named (removed_cancelled g h q gone mg);
    is_stored = λ n i e. elim (String-discrete n name) [
      | yes p ↦ ground (arith, p, lookup-erase n name s.tracker, e)
      | no other ↦
          let (node, stored) =
            I.is_stored n i (ground (arith, other, lookup-erase n name s.tracker, e)) in
          (node, ground (arith, other, lookup-erase n name s.nodes, stored))
    ];
  }

remove-NodeInv : (s : State) (name : String) → NodeInv s → NodeInv (remove name s)
unfolding remove
remove-NodeInv s name I = elim (Option-cases (lookup name s.tracker)) [
  | inl p ↦ rw (p, remove) I
  | inr (id, p) ↦ rw (p, remove) (removed-NodeInv s name id p I)
]

Step-NodeInv : (s t : State) → Step s t → NodeInv s → NodeInv t
unfolding store
Step-NodeInv s _ (meets node ended) I = meet-NodeInv s node ended I
Step-NodeInv s _ (removes name) I = remove-NodeInv s name I
Step-NodeInv s _ (stores g m name status) I = record {
  is_tracked = I.is_tracked;
  is_gone = I.is_gone;
  is_stored = I.is_stored;
}
Step-NodeInv s _ (finishes g m cancelled) I = finish-NodeInv s g m cancelled I

Reachable-NodeInv : (s : State) → Reachable s → NodeInv s
Reachable-NodeInv s at_start = initial-NodeInv
Reachable-NodeInv s (by_step t _ reached step) = Step-NodeInv t s step (Reachable-NodeInv t reached)

-- In every state that is reached by any order of the steps of the checks of nodes and of the loop over the
-- nodes, where a node that was removed is listed again only after its check has ended, a round of a
-- check that is not cancelled finds its node, so that it does not panic there.
pub Reachable-loaded :
    (s : State) (g : Check)
    → Reachable s
    → Memᴰ g s.checks
    → g.cancelled ≡ false
    → (node : NodeData) × (loaded (lookup g.name s.nodes) ≡ ok node)
unfolding loaded
Reachable-loaded s g r m live =
    let I = Reachable-NodeInv s r in
    let (node, e) = I.is_stored g.name g.id (I.is_tracked g m live) in (node, ap loaded e)
