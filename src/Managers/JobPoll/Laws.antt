-- ===== src/Managers/JobPoll/Laws.antt =====
-- How the wait for a deploy job ends, and when it does not.
use kube_bundler.Prelude.{
  ℕ, zero, suc, ◌+◌, ◌*◌, ◌≤◌, ◌<◌, ◌≡◌, refl, String, none, arith, inl, inr, ◌⊎◌,
}
use kube_bundler.Go.Errors.{Error}
use kube_bundler.Go.Io.{ok, err, panic}
use kube_bundler.Go.Run.{Returns}
use kube_bundler.Cluster.Clients.{Clock}
use kube_bundler.Managers.Resource.{second}
use kube_bundler.Managers.JobPoll.{Turn, found, stop, break_down, again, each_second}

pub Turn-cases :
    {A : Type 0} (t : Turn A)
    → ((a : A) × (t ≡ found a))
      ⊎ ((e : Error) × (t ≡ stop e))
      ⊎ ((why : String) × (t ≡ break_down why))
      ⊎ (t ≡ again)
Turn-cases (found a) = inl (a, refl)
Turn-cases (stop e) = inr (inl (e, refl))
Turn-cases (break_down why) = inr (inr (inl (why, refl)))
Turn-cases again = inr (inr (inr refl))

module _ {W A : Type 0} (clock : Clock W) (body : W → Turn A × W) where
  -- A loop whose rounds never find anything does not end.
  pub each_second-never :
      ((u : W) → (body u).0 ≡ again) → (fuel : ℕ) (w : W) → each_second clock body fuel w ≡ none
  unfolding each_second
  each_second-never idle zero w = refl
  each_second-never idle (suc fuel) w =
      rw (idle w, each_second) (each_second-never idle fuel (clock.sleep second (body w).1))

  module _ (time : W → ℕ) (limit : ℕ)
      (sleep-le : (n : ℕ) (w : W) → time w + n ≤ time (clock.sleep n w))
      (body-le : (w : W) → time w ≤ time (body w).1)
      (in_time : (w : W) → (body w).0 ≡ again → time w ≤ limit) where
    -- A loop whose rounds find something after the limit ends.
    pub each_second-total :
        (fuel : ℕ) (w : W)
        → limit < time w + fuel * second
        → Returns (each_second clock body (suc fuel) w)
    unfolding each_second
    each_second-total zero w enough = elim (Turn-cases (body w).0) [
      | inl (a, p) ↦ ((ok a, (body w).1), rw (p, each_second))
      | inr (inl (x, p)) ↦ ((err x, (body w).1), rw (p, each_second))
      | inr (inr (inl (why, p))) ↦ ((panic why, (body w).1), rw (p, each_second))
      | inr (inr (inr p)) ↦ absurd (omega (arith, in_time w p))
    ]
    each_second-total (suc fuel) w enough = elim (Turn-cases (body w).0) [
      | inl (a, p) ↦ ((ok a, (body w).1), rw (p, each_second))
      | inr (inl (x, p)) ↦ ((err x, (body w).1), rw (p, each_second))
      | inr (inr (inl (why, p))) ↦ ((panic why, (body w).1), rw (p, each_second))
      | inr (inr (inr p)) ↦
          let (r, e) =
            each_second-total fuel (clock.sleep second (body w).1)
              (omega (arith, body-le w, sleep-le second (body w).1)) in
          (r, rw (p, each_second) e)
    ]
