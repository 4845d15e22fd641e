-- ===== src/Resources/Pods/Complete.antt =====
-- The status of a resource speaks of every container of its pods, and of nothing else.
use kube_bundler.Prelude.{
  String, ◌<>◌, ◌≡◌, refl, some, List, [], ◌∷◌, ◌==◌, ==-refl, Bool-cases, inl, inr, ◌⊎◌, arith,
}
use kube_bundler.Prelude.Dict.{Dict, lookup, insert, lookup-insert, lookup-nil}
use kube_bundler.Cluster.Objects.{Pod, ContainerStatus}
use kube_bundler.Resources.Containers.{StatusInfo, get_container_state}
use kube_bundler.Resources.Pods.{status_key, status_info, add_statuses, add_pods}
use mathlib.Core.List.{Memᴰ}

abbrev Has : {V : Type 0} → String → Dict V → Type 0
Has {V} key m = (v : V) × (lookup key m ≡ some v)

Has-insert : {V : Type 0} (k j : String) (v : V) (m : Dict V) → Has k m → Has k (insert j v m)
Has-insert k j v m (x, p) = elim (Bool-cases (k == j)) [
  | inl e ↦ (v, rw (lookup-insert k j v m, e) refl)
  | inr e ↦ (x, rw (lookup-insert k j v m, e) p)
]

Has-insert_same : {V : Type 0} (k : String) (v : V) (m : Dict V) → Has k (insert k v m)
Has-insert_same k v m = (v, rw (lookup-insert k k v m, ==-refl k) refl)

add_statuses-keeps :
    (order container_type service : String) (pod : Pod) (l : List ContainerStatus)
    (m : Dict StatusInfo) (k : String)
    → Has k m
    → Has k (add_statuses order container_type service pod l m)
unfolding add_statuses
add_statuses-keeps order container_type service pod [] m k h = h
add_statuses-keeps order container_type service pod (s ∷ rest) m k h =
    add_statuses-keeps order container_type service pod rest _ k (Has-insert k _ _ m h)

add_statuses-Has :
    (order container_type service : String) (pod : Pod) (l : List ContainerStatus)
    (m : Dict StatusInfo) (s : ContainerStatus)
    → Memᴰ s l
    → Has
        (status_key order service pod.name s.name)
        (add_statuses order container_type service pod l m)
unfolding add_statuses
add_statuses-Has order container_type service pod [] m s h = elim h [ ]
add_statuses-Has order container_type service pod (x ∷ rest) m s (Memᴰ.head e) =
    rw e (add_statuses-keeps order container_type service pod rest _ _ (Has-insert_same _ _ m))
add_statuses-Has order container_type service pod (x ∷ rest) m s (Memᴰ.tail h) =
    add_statuses-Has order container_type service pod rest _ s h

add_pods-keeps :
    (service : String) (pods : List Pod) (m : Dict StatusInfo) (k : String)
    → Has k m
    → Has k (add_pods service pods m)
unfolding add_pods
add_pods-keeps service [] m k h = h
add_pods-keeps service (pod ∷ rest) m k h = add_pods-keeps service rest _ k (
    add_statuses-keeps "1" "app" service pod pod.container_statuses _ k
      (add_statuses-keeps "0" "init" service pod pod.init_container_statuses m k h))

-- A container status of a pod stands under the key of its kind, its pod and its container.
abbrev Listed : String → Pod → Dict StatusInfo → Type 0
Listed service pod m =
    ((s : ContainerStatus)
      → Memᴰ s pod.init_container_statuses
      → Has (status_key "0" service pod.name s.name) m)
    × ((s : ContainerStatus)
        → Memᴰ s pod.container_statuses
        → Has (status_key "1" service pod.name s.name) m)

-- For each pod in the list, each init container status and each container status of the pod has an
-- entry in the status map, under the key that begins with 0 or with 1.
add_pods_complete :
    (service : String) (pods : List Pod) (m : Dict StatusInfo) (pod : Pod)
    → Memᴰ pod pods
    → Listed service pod (add_pods service pods m)
unfolding add_pods
add_pods_complete service [] m pod h = elim h [ ]
add_pods_complete service (x ∷ rest) m pod (Memᴰ.head e) = rw e (
  λ s h. add_pods-keeps service rest _ _ (
      add_statuses-keeps "1" "app" service x x.container_statuses _ _
        (add_statuses-Has "0" "init" service x x.init_container_statuses m s h)),
  λ s h.
      add_pods-keeps service rest _ _
        (add_statuses-Has "1" "app" service x x.container_statuses _ s h),
)
add_pods_complete service (x ∷ rest) m pod (Memᴰ.tail h) = add_pods_complete service rest _ pod h

-- Where an entry comes from.
abbrev FromStatus : String → List Pod → String → StatusInfo → Type 0
FromStatus service pods key i =
    (pod : Pod) × (s : ContainerStatus) × Memᴰ pod pods
    × ((Memᴰ s pod.init_container_statuses
          × (key ≡ status_key "0" service pod.name s.name)
          × (i ≡ status_info "init" service pod s))
        ⊎ (Memᴰ s pod.container_statuses
            × (key ≡ status_key "1" service pod.name s.name)
            × (i ≡ status_info "app" service pod s)))

insert_cases :
    {V : Type 0} (k j : String) (v x : V) (m : Dict V)
    → lookup k (insert j v m) ≡ some x
    → ((k ≡ j) × (x ≡ v)) ⊎ (lookup k m ≡ some x)
insert_cases k j v x m h = let e = lookup-insert k j v m in ground (arith, rw e at h)

add_statuses_cases :
    (order container_type service : String) (pod : Pod) (l : List ContainerStatus)
    (m : Dict StatusInfo) (k : String) (i : StatusInfo)
    → lookup k (add_statuses order container_type service pod l m) ≡ some i
    → ((s : ContainerStatus) × Memᴰ s l
        × (k ≡ status_key order service pod.name s.name)
        × (i ≡ status_info container_type service pod s))
      ⊎ (lookup k m ≡ some i)
unfolding add_statuses
add_statuses_cases order container_type service pod [] m k i h = inr h
add_statuses_cases order container_type service pod (s ∷ rest) m k i h =
    elim (add_statuses_cases order container_type service pod rest _ k i h) [
      | inl (t, mem, e, e') ↦ inl (t, Memᴰ.tail mem, e, e')
      | inr old ↦ elim (insert_cases k _ _ i m old) [
        | inl (e, e') ↦ inl (s, Memᴰ.head refl, e, e')
        | inr older ↦ inr older
      ]
    ]

weaken :
    (service : String) (pods : List Pod) (pod : Pod) (key : String) (i : StatusInfo)
    → FromStatus service pods key i
    → FromStatus service (pod ∷ pods) key i
weaken service pods pod key i (p, s, mem, rest) = (p, s, Memᴰ.tail mem, rest)

add_pods_cases :
    (service : String) (pods : List Pod) (m : Dict StatusInfo) (k : String) (i : StatusInfo)
    → lookup k (add_pods service pods m) ≡ some i
    → FromStatus service pods k i ⊎ (lookup k m ≡ some i)
unfolding add_pods
add_pods_cases service [] m k i h = inr h
add_pods_cases service (pod ∷ rest) m k i h = elim (add_pods_cases service rest _ k i h) [
  | inl there ↦ inl (weaken service rest pod k i there)
  | inr here ↦ elim (add_statuses_cases "1" "app" service pod pod.container_statuses _ k i here) [
    | inl (s, mem, e, e') ↦ inl (pod, s, Memᴰ.head refl, inr (mem, e, e'))
    | inr earlier ↦
        elim (add_statuses_cases "0" "init" service pod pod.init_container_statuses m k i earlier) [
          | inl (s, mem, e, e') ↦ inl (pod, s, Memᴰ.head refl, inl (mem, e, e'))
          | inr old ↦ inr old
        ]
  ]
]

-- Each entry of the status map that is built for a list of pods speaks of a container status of one
-- of the pods, under its key and with its data.
add_pods_sound :
    (service : String) (pods : List Pod) (k : String) (i : StatusInfo)
    → lookup k (add_pods service pods []) ≡ some i
    → FromStatus service pods k i
add_pods_sound service pods k i h = elim (add_pods_cases service pods [] k i h) [
  | inl there ↦ there
  | inr none_there ↦ ground (arith, rw (lookup-nil k) at none_there)
]

-- The text under which a container's status should stand, such as [1.service.pod.container].
abbrev pub printed_key : String → String → String → String → String
printed_key order service pod container =
    "[" <> (order <> ("." <> (service <> ("." <> (pod <> ("." <> (container <> "]")))))))

-- An entry has the data of this status of a container of the pod.
pub record HasData (container_type service : String) (pod : Pod) (s : ContainerStatus)
    (i : StatusInfo) : Type 0 where
  pub service_eq : i.service ≡ service
  pub pod_eq : i.pod ≡ pod.name
  pub container_eq : i.container ≡ s.name
  pub node_eq : i.node_name ≡ pod.node_name
  pub type_eq : i.container_type ≡ container_type
  pub state_eq : i.container_state ≡ get_container_state s
  pub restarts_eq : i.restarts ≡ s.restart_count

status_info-HasData :
    (container_type service : String) (pod : Pod) (s : ContainerStatus) (i : StatusInfo)
    → i ≡ status_info container_type service pod s
    → HasData container_type service pod s i
unfolding status_info
status_info-HasData container_type service pod s i p = rw p (record {
  service_eq = refl;
  pod_eq = refl;
  container_eq = refl;
  node_eq = refl;
  type_eq = refl;
  state_eq = refl;
  restarts_eq = refl;
})

-- An entry under the key speaks of a container status of one of the pods: the key is the text for
-- that container, and the entry has its data.
abbrev pub FromContainer : String → List Pod → String → StatusInfo → Type 0
FromContainer service pods key i =
    (pod : Pod) × (s : ContainerStatus) × Memᴰ pod pods
    × ((Memᴰ s pod.init_container_statuses
          × (key ≡ printed_key "0" service pod.name s.name)
          × HasData "init" service pod s i)
        ⊎ (Memᴰ s pod.container_statuses
            × (key ≡ printed_key "1" service pod.name s.name)
            × HasData "app" service pod s i))

FromStatus-FromContainer :
    (service : String) (pods : List Pod) (key : String) (i : StatusInfo)
    → FromStatus service pods key i
    → FromContainer service pods key i
unfolding status_key
FromStatus-FromContainer service pods key i (pod, s, mem, inl (m, e, e')) =
    (pod, s, mem, inl (m, e, status_info-HasData "init" service pod s i e'))
FromStatus-FromContainer service pods key i (pod, s, mem, inr (m, e, e')) =
    (pod, s, mem, inr (m, e, status_info-HasData "app" service pod s i e'))

-- There is an entry under the key, and it speaks of a container status with that key.
abbrev pub Entered : String → List Pod → Dict StatusInfo → String → Type 0
Entered service pods m key =
    (i : StatusInfo) × (lookup key m ≡ some i) × FromContainer service pods key i

-- The map holds the statuses of the containers of the pods.
pub record IsExact (service : String) (pods : List Pod) (m : Dict StatusInfo) : Type 0 where
  pub init_complete :
      (pod : Pod) (s : ContainerStatus)
      → Memᴰ pod pods
      → Memᴰ s pod.init_container_statuses
      → Entered service pods m (printed_key "0" service pod.name s.name)
  pub complete :
      (pod : Pod) (s : ContainerStatus)
      → Memᴰ pod pods
      → Memᴰ s pod.container_statuses
      → Entered service pods m (printed_key "1" service pod.name s.name)
  pub sound : (k : String) (i : StatusInfo) → lookup k m ≡ some i → FromContainer service pods k i

has-Entered :
    (service : String) (pods : List Pod) (key : String)
    → Has key (add_pods service pods [])
    → Entered service pods (add_pods service pods []) key
has-Entered service pods key (i, p) =
    (i, p, FromStatus-FromContainer service pods key i (add_pods_sound service pods key i p))

-- The status map that is built for a list of pods has an entry for each init container status of each pod, under
-- "[0.service.pod.container]", and for each container status, under "[1.service.pod.container]". Each
-- entry of the map stands under that text of a container status of one of the pods, and has its service,
-- pod, container, node, type, state and restarts.
pub add_pods-IsExact :
    (service : String) (pods : List Pod) → IsExact service pods (add_pods service pods [])
unfolding status_key
add_pods-IsExact service pods = record {
  init_complete =
      λ pod s mem m. has-Entered service pods _ ((add_pods_complete service pods [] pod mem).0 s m);
  complete =
      λ pod s mem m. has-Entered service pods _ ((add_pods_complete service pods [] pod mem).1 s m);
  sound = λ k i p. FromStatus-FromContainer service pods k i (add_pods_sound service pods k i p);
}
