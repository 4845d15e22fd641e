-- ===== src/ClusterStatus/Laws.antt =====
-- What the process holds on the other nodes.
use kube_bundler.Prelude.{
  ◌≡◌, ◌≢◌, sym, ap, ◌∙◌, String, false, some, List, ◌==◌, eqb, ◌&&◌, inl, inr, arith, Memᴰ,
  Option-cases, Bool-cases, String-discrete,
}
use mathlib.Core.List.Memᴰ
use mathlib.Core.Path.{subst}
use kube_bundler.Prelude.Int.{ℤ, eqb_ℤ}
use kube_bundler.Prelude.Dict.{lookup, erase, lookup-insert, lookup-erase, lookup-nil}
use kube_bundler.Go.Io.{Result, ok, err, panic}
use kube_bundler.Managers.Health.{DetailStatus}
use kube_bundler.Managers.NodePass.{NodeInfo}
use kube_bundler.Managers.Tracker.{Check, cancel}
use kube_bundler.Managers.Tracker.Checks.{without-keeps, cancel-name}
use kube_bundler.ClusterStatus.Probe.{
  online, offline, healthy_value, not_healthy_value, judge_online,
}
use kube_bundler.ClusterStatus.{
  State, initial, meet, remove, store, store_own, finish, start_check, Step, meets, removes, stores,
  stores_own, finishes, Reachable, at_start, by_step,
}

-- What a status says of a node: that it is online and healthy, or neither.
pub data IsTold (d : DetailStatus) : Type 0 where
  is_online : d.value ≡ online → d.healthy ≡ healthy_value → IsTold d
  is_offline : d.value ≡ offline → d.healthy ≡ not_healthy_value → IsTold d

judge_online-IsTold :
    (name : String) (r : Result ℤ) (d : DetailStatus)
    → judge_online name r ≡ ok d
    → (d.name ≡ name) × IsTold d
unfolding judge_online
judge_online-IsTold name (ok code) d h = elim (Bool-cases (eqb_ℤ code (ℤ.pos 200))) [
  | inl p ↦
      let e : record { name = name; value = online; healthy = healthy_value } ≡ d =
        ground (arith, rw p at h) in
      (
        sym (ap (λ (x : DetailStatus). x.name) e),
        is_online (sym (ap (λ (x : DetailStatus). x.value) e))
            (sym (ap (λ (x : DetailStatus). x.healthy) e)),
      )
  | inr p ↦
      let e : record { name = name; value = offline; healthy = not_healthy_value } ≡ d =
        ground (arith, rw p at h) in
      (
        sym (ap (λ (x : DetailStatus). x.name) e),
        is_offline (sym (ap (λ (x : DetailStatus). x.value) e))
            (sym (ap (λ (x : DetailStatus). x.healthy) e)),
      )
]
judge_online-IsTold name (err x) d h =
    let e : record { name = name; value = offline; healthy = not_healthy_value } ≡ d =
      ground (arith, h) in
    (
      sym (ap (λ (x : DetailStatus). x.name) e),
      is_offline (sym (ap (λ (x : DetailStatus). x.value) e))
          (sym (ap (λ (x : DetailStatus). x.healthy) e)),
    )
judge_online-IsTold name (panic why) d h = ground (arith, h)

-- A goroutine for the node runs, cancelled or not.
abbrev Runs : String → List Check → Type 0
Runs name checks = (g : Check) × Memᴰ g checks × (g.name ≡ name)

-- A status that is held on a node: the node is another one, the status has its name and is online
-- or offline, and a goroutine for the node runs.
pub record IsHeld (own : String) (s : State) (name : String) (d : DetailStatus) : Type 0 where
  pub is_other : name ≢ own
  pub is_named : d.name ≡ name
  pub is_told : IsTold d
  pub has_check : Runs name s.checks

abbrev Held : String → State → Type 0
Held own s =
    (name : String) (d : DetailStatus) → lookup name s.network ≡ some d → IsHeld own s name d

-- The statuses are the same, and the goroutines are at least there under their names.
moved-Held :
    (own : String) (s t : State)
    → ((name : String) (d : DetailStatus)
        → lookup name t.network ≡ some d
        → lookup name s.network ≡ some d)
    → ((name : String) → Runs name s.checks → Runs name t.checks)
    → Held own s
    → Held own t
moved-Held own s t before there held name d e =
    let h = held name d (before name d e) in
    record {
      is_other = h.is_other;
      is_named = h.is_named;
      is_told = h.is_told;
      has_check = there name h.has_check;
    }

erased_before :
    (name other : String) (s : State) (d : DetailStatus)
    → lookup name (erase other s.network) ≡ some d
    → (name ≢ other) × (lookup name s.network ≡ some d)
erased_before name other s d e = elim (String-discrete name other) [
  | yes p ↦ ground (arith, p, lookup-erase name other s.network, e)
  | no n ↦ (n, ground (arith, n, lookup-erase name other s.network, e))
]

meet-Held : (own : String) (s : State) (node : NodeInfo) → Held own s → Held own (meet node s)
unfolding meet start_check
meet-Held own s node held = elim (Option-cases (lookup node.name s.tracker)) [
  | inl p ↦
      rw (p, meet)
        (moved-Held own s (start_check node.name s) (λ name d e. e)
          (λ name (g, m, q). (g, Memᴰ.tail m, q)) held)
  | inr (id, p) ↦ rw (p, meet) held
]

remove-Held : (own : String) (s : State) (name : String) → Held own s → Held own (remove name s)
unfolding remove
remove-Held own s name held = elim (Option-cases (lookup name s.tracker)) [
  | inl p ↦ rw (p, remove) held
  | inr (id, p) ↦
      rw (p, remove)
        (moved-Held own s _ (λ n d e. (erased_before n name s d e).1)
          (λ n (g, m, q).
            (cancel id name g, Memᴰ.map (cancel id name) m, cancel-name id name g ∙ q))
          held)
]

store-Held :
    (own : String) (s : State) (g : Check)
    → Memᴰ g s.checks
    → g.name ≢ own
    → (r : Result ℤ) (d : DetailStatus) → judge_online g.name r ≡ ok d
    → Held own s
    → Held own (store g.name d s)
unfolding store
store-Held own s g m other r d said held name x e = elim (String-discrete name g.name) [
  | yes p ↦
      let (named, told) = judge_online-IsTold g.name r d said in
      let same : d ≡ x = ground (arith, p, lookup-insert name g.name d s.network, e) in
      record {
        is_other = λ q. other (sym p ∙ q);
        is_named = ap (λ (y : DetailStatus). y.name) (sym same) ∙ named ∙ sym p;
        is_told = subst IsTold same told;
        has_check = (g, m, sym p);
      }
  | no n ↦
      let h = held name x (ground (arith, n, lookup-insert name g.name d s.network, e)) in
      record {
        is_other = h.is_other;
        is_named = h.is_named;
        is_told = h.is_told;
        has_check = h.has_check;
      }
]

-- The goroutines that are left are all but the one that ends.
finish-Held : (own : String) (s : State) (g : Check) → Held own s → Held own (finish g s)
unfolding finish
finish-Held own s g held name d e =
    let (other, before) = erased_before name g.name s d e in
    let h = held name d before in
    let (c, m, q) = h.has_check in
    let stays : (c.cancelled && eqb c.id g.id && c.name == g.name) ≡ false =
      ground (arith, other, q) in
    record {
      is_other = h.is_other;
      is_named = h.is_named;
      is_told = h.is_told;
      has_check = (c, without-keeps g c s.checks stays m, q);
    }

Step-Held : (own : String) (s t : State) → Step own s t → Held own s → Held own t
unfolding store_own
Step-Held own s _ (meets node) held = meet-Held own s node held
Step-Held own s _ (removes name) held = remove-Held own s name held
Step-Held own s _ (stores g m other r d said) held = store-Held own s g m other r d said held
Step-Held own s _ (stores_own g m mine node named ranged) held =
    moved-Held own s _ (λ name d e. e) (λ name h. h) held
Step-Held own s _ (finishes g m other cancelled) held = finish-Held own s g held

initial-Held : (own : String) → Held own initial
initial-Held own name d e = ground (arith, lookup-nil {V = DetailStatus} name, e)

Reachable-Held : (own : String) (s : State) → Reachable own s → Held own s
Reachable-Held own s at_start = initial-Held own
Reachable-Held own s (by_step t _ reached step) =
    Step-Held own t s step (Reachable-Held own t reached)

-- In every state that the process reaches by any order of the steps of its goroutines and of the loop over the nodes,
-- each status that is held on a node is on another node than its own, has the name of that node, is online and
-- healthy or offline and not, and a goroutine for that node still runs. So nothing is held on a node whose goroutines have ended.
pub Reachable-IsHeld :
    (own : String) (s : State) (name : String) (d : DetailStatus)
    → Reachable own s
    → lookup name s.network ≡ some d
    → IsHeld own s name d
Reachable-IsHeld own s name d r e = Reachable-Held own s r name d e
