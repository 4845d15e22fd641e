-- ===== src/Resources/Poll.antt =====
-- The loop of every `Wait`: `for start := time.Now(); time.Since(start) < timeout; { … }` with a
-- pause of five seconds at the end of the body. Times are in nanoseconds.
pub mod Laws
use kube_bundler.Prelude.{ℕ, zero, suc, ◌-◌, String, Bool, true, false, Option, none, some, ltb}
use kube_bundler.Go.Errors.{Error}
use kube_bundler.Go.Io.{Result, ok, err, panic, Io}
use kube_bundler.Cluster.Clients.{Clock}

-- How a round of the body ends: it pauses for another round, or it returns.
pub data Round : Type 0 where
  again done : Round
  failed : Error → Round
  crashed : String → Round

abbrev pub pause : ℕ
pause = 5_000_000_000

module _ {W : Type 0} (clock : Clock W) (body : W → Round × W) (expired : Error) where
  unfoldable pub poll : ℕ → ℕ → ℕ → W → Option (Result (Unit {0}) × W)
  poll zero start timeout w = none
  poll (suc fuel) start timeout w =
      let (time, w') = clock.now w in
      let (round, w'') = body w' in
      elim (ltb (time - start) timeout) [
        | false ↦ some (err expired, w')
        | true ↦ elim round [
          | again ↦ poll fuel start timeout (clock.sleep pause w'')
          | done ↦ some (ok tt, w'')
          | failed e ↦ some (err e, w'')
          | crashed why ↦ some (panic why, w'')
        ]
      ]

  -- `none` means that the fuel ran out.
  unfoldable pub wait : ℕ → ℕ → W → Option (Result (Unit {0}) × W)
  unfolding poll
  wait fuel timeout w = let (start, w') = clock.now w in poll fuel start timeout w'
