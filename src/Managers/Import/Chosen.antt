-- ===== src/Managers/Import/Chosen.antt =====
-- The pods to which an import goes.
use kube_bundler.Prelude.{◌≡◌, refl, String, List, [], ◌∷◌, String-discrete, ap, ◌++◌, All, ◌≢◌}
use mathlib.Core.Logic.{if_pos, if_neg}
use kube_bundler.Cluster.Objects.{Pod}
use kube_bundler.Managers.Import.{first_on_host, choose_pods}

-- The pods to which an import goes: all of them if no host is named, else the first pod on the host, and none
-- if there is no pod on it.
pub data Chosen (host : String) (pods : List Pod) : List Pod → Type 0 where
  everywhere : host ≡ "" → Chosen host pods pods
  nowhere : host ≢ "" → All (λ (p : Pod). p.host_ip ≢ host) pods → Chosen host pods []
  on_host :
      (before : List Pod) (p : Pod) (after : List Pod)
      → host ≢ ""
      → pods ≡ before ++ (p ∷ after)
      → All (λ (q : Pod). q.host_ip ≢ host) before
      → p.host_ip ≡ host
      → Chosen host pods (p ∷ [])

later-Chosen :
    (host : String) (q : Pod) (pods chosen : List Pod)
    → host ≢ ""
    → q.host_ip ≢ host
    → Chosen host pods chosen
    → Chosen host (q ∷ pods) chosen
later-Chosen host q pods _ named differ (Chosen.everywhere e) = absurd (named e)
later-Chosen host q pods _ named differ (Chosen.nowhere n all) = Chosen.nowhere n (differ, all)
later-Chosen host q pods _ named differ (Chosen.on_host before p after n e all on) =
    Chosen.on_host (q ∷ before) p after n (ap (λ ps. q ∷ ps) e) (differ, all) on

first_on_host-Chosen :
    (host : String) (pods : List Pod) → host ≢ "" → Chosen host pods (first_on_host host pods)
unfolding first_on_host
first_on_host-Chosen host [] named = Chosen.nowhere named tt
first_on_host-Chosen host (p ∷ ps) named = elim (String-discrete p.host_ip host) [
  | yes e ↦ rw (if_pos _ e) (Chosen.on_host [] p ps named refl tt e)
  | no n ↦
      rw (if_neg _ n) (
        later-Chosen host p ps (first_on_host host ps) named n (first_on_host-Chosen host ps named))
]

pub choose_pods-Chosen :
    (host : String) (pods : List Pod) → Chosen host pods (choose_pods host pods)
unfolding choose_pods
choose_pods-Chosen host pods = elim (String-discrete host "") [
  | yes e ↦ rw (if_pos _ e) (Chosen.everywhere e)
  | no n ↦ rw (if_neg _ n) (first_on_host-Chosen host pods n)
]
