-- ===== src/Resources/Poll/Laws.antt =====
-- The polling loop ends, and how it can end.
use kube_bundler.Prelude.{ℕ, zero, suc, ◌+◌, ◌-◌, ◌*◌, ◌≤◌, ◌<◌, ◌≡◌, refl, some, arith}
use kube_bundler.Prelude.{Option, ltb, ltb→lt, Bool-cases, inl, inr, ◌⊎◌, String}
use kube_bundler.Go.Errors.{Error}
use kube_bundler.Go.Io.{Result, ok, err, panic}
use kube_bundler.Cluster.Clients.{Clock}
use kube_bundler.Resources.Poll.{Round, again, done, failed, crashed, pause, poll, wait}

-- Time does not run backwards, and a pause lasts at least as long as it should.
pub record Ticks {W : Type 0} (clock : Clock W) (body : W → Round × W) : Type 0 where
  pub time : W → ℕ
  pub now-ge : (w : W) → time w ≤ (clock.now w).0
  pub now-le : (w : W) → (clock.now w).0 ≤ time (clock.now w).1
  pub body-le : (w : W) → time w ≤ time (body w).1
  pub sleep-le : (n : ℕ) (w : W) → time w + n ≤ time (clock.sleep n w)

Round-cases :
    (r : Round)
    → (r ≡ again)
      ⊎ (r ≡ done)
      ⊎ ((e : Error) × (r ≡ failed e))
      ⊎ ((why : String) × (r ≡ crashed why))
Round-cases again = inl refl
Round-cases done = inr (inl refl)
Round-cases (failed e) = inr (inr (inl (e, refl)))
Round-cases (crashed why) = inr (inr (inr (why, refl)))

module _ {W : Type 0} (clock : Clock W) (body : W → Round × W) (expired : Error) where
  abbrev Returns : Option (Result (Unit {0}) × W) → Type 0
  Returns o = (r : Result (Unit {0}) × W) × (o ≡ some r)

  module _ (T : Ticks clock body) where
    poll-total :
        (fuel start timeout : ℕ) (w : W)
        → start + timeout ≤ T.time w + fuel * pause
        → Returns (poll clock body expired (suc fuel) start timeout w)
    unfolding poll
    poll-total zero start timeout w enough =
        let end = (body (clock.now w).1).1 in
        elim (Bool-cases (ltb ((clock.now w).0 - start) timeout)) [
          | inr e ↦ ((err expired, (clock.now w).1), rw (e, poll))
          | inl e ↦ elim (Round-cases (body (clock.now w).1).0) [
            | inl r ↦ absurd (omega (arith, T.now-ge w, ltb→lt _ _ e))
            | inr (inl r) ↦ ((ok tt, end), rw (e, poll, r))
            | inr (inr (inl (x, r))) ↦ ((err x, end), rw (e, poll, r))
            | inr (inr (inr (why, r))) ↦ ((panic why, end), rw (e, poll, r))
          ]
        ]
    poll-total (suc fuel) start timeout w enough =
        let end = (body (clock.now w).1).1 in
        elim (Bool-cases (ltb ((clock.now w).0 - start) timeout)) [
          | inr e ↦ ((err expired, (clock.now w).1), rw (e, poll))
          | inl e ↦ elim (Round-cases (body (clock.now w).1).0) [
            | inl r ↦
                let (x, p) = poll-total fuel start timeout (clock.sleep pause end) (
                  omega (
                    arith,
                    T.now-ge w,
                    T.now-le w,
                    T.body-le (clock.now w).1,
                    T.sleep-le pause end,
                  )) in
                (x, rw (e, poll, r) p)
            | inr (inl r) ↦ ((ok tt, end), rw (e, poll, r))
            | inr (inr (inl (x, r))) ↦ ((err x, end), rw (e, poll, r))
            | inr (inr (inr (why, r))) ↦ ((panic why, end), rw (e, poll, r))
          ]
        ]

    -- On a clock that does not run backwards, with pauses that are as long as they should be: with
    -- more rounds of fuel than there are pauses in the timeout, a wait returns.
    pub wait-total :
        (fuel timeout : ℕ) (w : W)
        → timeout ≤ fuel * pause
        → Returns (wait clock body expired (suc fuel) timeout w)
    unfolding wait
    wait-total fuel timeout w enough =
        poll-total fuel (clock.now w).0 timeout (clock.now w).1 (omega (arith, T.now-le w))

  -- The second world is reached by rounds that began in time, did not end the wait, and paused.
  pub data Rounds (start timeout : ℕ) : W → W → Type 0 where
    here : (w : W) → Rounds start timeout w w
    more :
        (w : W) {u : W}
        → (clock.now w).0 - start < timeout
        → (body (clock.now w).1).0 ≡ again
        → Rounds start timeout (clock.sleep pause (body (clock.now w).1).1) u
        → Rounds start timeout w u

  -- The last round of a wait that returned no error: it began in time and found the end, and the wait ended where
  -- it did.
  pub record Ended (start timeout : ℕ) (w w' : W) : Type 0 where
    pub last : W
    pub rounds : Rounds start timeout w last
    pub in_time : (clock.now last).0 - start < timeout
    pub found : (body (clock.now last).1).0 ≡ done
    pub ends : (body (clock.now last).1).1 ≡ w'

  poll-Ended :
      (fuel start timeout : ℕ) (w w' : W)
      → poll clock body expired fuel start timeout w ≡ some (ok tt, w')
      → Ended start timeout w w'
  unfolding poll
  poll-Ended zero start timeout w w' h = ground arith
  poll-Ended (suc fuel) start timeout w w' h =
      let end = (body (clock.now w).1).1 in
      elim (Bool-cases (ltb ((clock.now w).0 - start) timeout)) [
        | inr e ↦ ground (arith, rw (e, poll) at h)
        | inl e ↦ elim (Round-cases (body (clock.now w).1).0) [
          | inl r ↦
              let rest =
                poll-Ended fuel start timeout (clock.sleep pause end) w' (rw (e, poll, r) at h) in
              record {
                last = rest.last;
                rounds = more w (ltb→lt _ _ e) r rest.rounds;
                in_time = rest.in_time;
                found = rest.found;
                ends = rest.ends;
              }
          | inr (inl r) ↦ record {
            last = w;
            rounds = here w;
            in_time = ltb→lt _ _ e;
            found = r;
            ends = ground (arith, rw (e, poll, r) at h);
          }
          | inr (inr (inl (x, r))) ↦ ground (arith, rw (e, poll, r) at h)
          | inr (inr (inr (why, r))) ↦ ground (arith, rw (e, poll, r) at h)
        ]
      ]

  -- A wait that returns no error has seen its end in a round that began before the timeout.
  pub wait-Ended :
      (fuel timeout : ℕ) (w w' : W)
      → wait clock body expired fuel timeout w ≡ some (ok tt, w')
      → Ended (clock.now w).0 timeout (clock.now w).1 w'
  unfolding wait
  wait-Ended fuel timeout w w' h = poll-Ended fuel (clock.now w).0 timeout (clock.now w).1 w' h
