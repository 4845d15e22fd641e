-- ===== src/Waitfor/Laws.antt =====
-- When the command ends, and what its exit code says.
use kube_bundler.Prelude.{
  leb, ap, ℕ, zero, suc, ◌+◌, ◌-◌, ◌*◌, ◌≤◌, ◌≡◌, refl, String, true, false, Bool, Option, none,
  some, List, [], ◌∷◌, arith, Bool-cases, Option-cases, inl, inr, ◌⊎◌, ◌<◌, ◌&&◌, ◌∙◌, ==_iff,
  String-discrete,
}
use kube_bundler.Prelude.Int.{ℤ, leb_ℤ, ltb_ℤ}
use mathlib.Core.Logic.{if_pos, if_neg}
use kube_bundler.Go.Errors.{Error}
use kube_bundler.Cluster.Clients.{Clock}
use kube_bundler.Waitfor.{
  Network, Settings, Url, is_http, check_status, connect_url, connect_host, try_connect,
  all_supported, retry, timeout_reached, main, second, sleep_between_call,
}

-- The status codes that are a success.
accepted-code :
    (code : ℤ)
    → leb_ℤ (ℤ.pos 200) code && ltb_ℤ code (ℤ.pos 300) ≡ true
    → (n : ℕ) × (code ≡ ℤ.pos n) × (200 ≤ n) × (n < 300)
accepted-code (ℤ.pos n) h = (n, refl, ground (arith, h), ground (arith, h))
accepted-code (ℤ.negsuc n) h = ground (arith, h)

is_http-cases : (scheme : String) → is_http scheme ≡ true → (scheme ≡ "http") ⊎ (scheme ≡ "https")
unfolding is_http
is_http-cases scheme h = elim (String-discrete scheme "http") [
  | yes e ↦ inl e
  | no n ↦ inr ((==_iff scheme "https").0 (rw (if_neg _ n) at h))
]

either : {A B : Type 0} (x : A ⊎ B) → ((a : A) × (x ≡ inl a)) ⊎ ((b : B) × (x ≡ inr b))
either (inl a) = inl (a, refl)
either (inr b) = inr (b, refl)

module _ {W : Type 0} (net : Network W) (clock : Clock W) where
  -- The target is a URL, and a GET of it gave a status code from 200 to 299, or, with the scheme tcp, its host was
  -- dialled with no error.
  abbrev pub Connected : String → W → W → Type 0
  Connected target w w' =
      (u : Url) × (net.parse target ≡ inr u)
      × ((((u.scheme ≡ "http") ⊎ (u.scheme ≡ "https"))
            × (code : ℕ) × (net.http_get target w ≡ (inr (ℤ.pos code), w'))
            × (200 ≤ code)
            × (code < 300))
          ⊎ ((u.scheme ≡ "tcp") × (net.dial u.host w ≡ (none, w'))))

  check_status-none :
      (r : Error ⊎ ℤ)
      → check_status net clock r ≡ none
      → (n : ℕ) × (r ≡ inr (ℤ.pos n)) × (200 ≤ n) × (n < 300)
  unfolding check_status
  check_status-none (inl e) h = ground (arith, h)
  check_status-none (inr code) h =
      elim (Bool-cases (leb_ℤ (ℤ.pos 200) code && ltb_ℤ code (ℤ.pos 300))) [
        | inl e ↦ let (n, p, q, r) = accepted-code code e in (n, ap (λ z. inr z) p, q, r)
        | inr e ↦ ground (arith, rw e at h)
      ]

  connect_url-Connected :
      (target : String) (u : Url) (w w' : W)
      → net.parse target ≡ inr u
      → connect_url net clock target u w ≡ (none, w')
      → Connected target w w'
  unfolding connect_url
  connect_url-Connected target u w w' p h = elim (Bool-cases (is_http u.scheme)) [
    | inl e ↦
        let h' = rw e at h in
        let (n, q, low, high) =
          check_status-none (net.http_get target w).0 (ap (λ (o : Option Error × W). o.0) h') in
        let moved : (net.http_get target w).1 ≡ w' = ap (λ (o : Option Error × W). o.1) h' in
        (
          u,
          p,
          inl (
            is_http-cases u.scheme e,
            n,
            ap (λ r. (r, (net.http_get target w).1)) q ∙ ap (λ x. (inr (ℤ.pos n), x)) moved,
            low,
            high,
          ),
        )
    | inr e ↦
        let h' = rw e at h in
        elim (String-discrete u.scheme "tcp") [
          | yes tcp ↦ (u, p, inr (tcp, rw (if_pos _ tcp) at h'))
          | no n ↦ let h'' = rw (if_neg _ n) at h' in ground (arith, h'')
        ]
  ]

  connect_host-Connected :
      (target : String) (w w' : W)
      → connect_host net clock target w ≡ (none, w')
      → Connected target w w'
  unfolding connect_host
  connect_host-Connected target w w' h = elim (either (net.parse target)) [
    | inl (e, p) ↦ ground (arith, rw (p, connect_host) at h)
    | inr (u, p) ↦ connect_url-Connected target u w w' p (rw (p, connect_host) at h)
  ]

  -- Each of the targets in turn was connected to.
  pub data Reached : List String → W → W → Type 0 where
    none_left : (w : W) → Reached [] w w
    reached :
        (target : String) {targets : List String} (w w' : W) {u : W}
        → Connected target w w'
        → Reached targets w' u
        → Reached (target ∷ targets) w u

  try_connect-Reached :
      (targets : List String) (w : W)
      → (try_connect net clock targets w).0 ≡ true
      → Reached targets w (try_connect net clock targets w).1
  unfolding try_connect
  try_connect-Reached [] w h = none_left w
  try_connect-Reached (target ∷ targets) w h =
      let w' = (connect_host net clock target w).1 in
      elim (Option-cases (connect_host net clock target w).0) [
        | inr (e, p) ↦ ground (arith, rw (p, try_connect) at h)
        | inl p ↦
            rw (p, try_connect)
              (reached target w w' (connect_host-Connected target w w' (ap (λ o. (o, w')) p))
                (try_connect-Reached targets w' (rw (p, try_connect) at h)))
      ]

  retry-Reached :
      (fuel : ℕ) (timeout : ℤ) (start : ℕ) (targets : List String) (w w' : W)
      → retry net clock fuel timeout start targets w ≡ some (0, w')
      → (u : W) × Reached targets u w'
  unfolding retry
  retry-Reached zero timeout start targets w w' h = ground arith
  retry-Reached (suc fuel) timeout start targets w w' h =
      let w1 = (try_connect net clock targets w).1 in
      let (time, w2) = clock.now w1 in
      elim (Bool-cases (try_connect net clock targets w).0) [
        | inl e ↦
            let here = rw (e, retry) at h in
            let there = try_connect-Reached targets w e in
            let moved : w1 ≡ w' = ground (arith, here) in (w, rw moved at there)
        | inr e ↦ elim (Bool-cases (timeout_reached net clock timeout (time - start))) [
          | inl late ↦ let h' = rw (e, retry) at h in ground (arith, rw late at h')
          | inr early ↦
              retry-Reached fuel timeout start targets (clock.sleep sleep_between_call w2) w'
                (let h' = rw (e, retry) at h in rw early at h')
        ]
      ]

  -- If the checks are not skipped, exit code 0 means that in some round each of the targets was
  -- connected to, one after another, and that nothing was done after it. Connected means that the target
  -- is a URL whose GET gave a status code from 200 to 299, or, with the scheme tcp, whose host was dialled with no
  -- error.
  pub main-Reached :
      (settings : Settings) (targets : List String) (fuel : ℕ) (w w' : W)
      → settings.skip_checks ≡ false
      → main net clock settings targets fuel w ≡ some (0, w')
      → (u : W) × Reached targets u w'
  unfolding main
  main-Reached settings [] fuel w w' checked h = ground (arith, rw (main, checked) at h)
  main-Reached settings (target ∷ targets) fuel w w' checked h =
      elim (Bool-cases (all_supported net clock (target ∷ targets))) [
        | inr e ↦ let h' = rw (checked, main) at h in ground (arith, rw e at h')
        | inl e ↦
            let h' = rw (checked, main) at h in
            retry-Reached fuel settings.timeout (clock.now w).0 (target ∷ targets) (clock.now w).1
              w' (rw e at h')
      ]

-- The clock does not run backwards, and a pause lasts at least as long as it should.
pub record Passes {W : Type 0} (net : Network W) (clock : Clock W) : Type 0 where
  pub time : W → ℕ
  pub now-ge : (w : W) → time w ≤ (clock.now w).0
  pub now-le : (w : W) → (clock.now w).0 ≤ time (clock.now w).1
  pub connect-le :
      (targets : List String) (w : W) → time w ≤ time (try_connect net clock targets w).1
  pub sleep-le : (n : ℕ) (w : W) → time w + n ≤ time (clock.sleep n w)

module _ {W : Type 0} (net : Network W) (clock : Clock W) (P : Passes net clock) where
  abbrev Ends : Option (ℕ × W) → Type 0
  Ends o = (r : ℕ × W) × (o ≡ some r)

  -- A round ends, if the next one does where the time is not up.
  round-total :
      (fuel n start : ℕ) (targets : List String) (w : W)
      → (let w1 = (try_connect net clock targets w).1 in
          let (time, w2) = clock.now w1 in
          leb (n * second) (time - start) ≡ false
          → Ends (retry net clock fuel (ℤ.pos n) start targets (clock.sleep sleep_between_call w2)))
      → Ends (retry net clock (suc fuel) (ℤ.pos n) start targets w)
  unfolding retry timeout_reached
  round-total fuel n start targets w next =
      let w1 = (try_connect net clock targets w).1 in
      let (time, w2) = clock.now w1 in
      elim (Bool-cases (try_connect net clock targets w).0) [
        | inl e ↦ ((0, w1), rw (e, retry))
        | inr e ↦ elim (Bool-cases (leb (n * second) (time - start))) [
          | inl late ↦ ((3, w2), rw (e, retry) (rw late refl))
          | inr early ↦ let (r, p) = next early in (r, rw (e, retry) (rw early p))
        ]
      ]

  retry-total :
      (fuel n start : ℕ) (targets : List String) (w : W)
      → start + n * second ≤ P.time w + fuel * sleep_between_call
      → Ends (retry net clock (suc fuel) (ℤ.pos n) start targets w)
  retry-total zero n start targets w enough =
      let w1 = (try_connect net clock targets w).1 in
      round-total zero n start targets w
        (λ early. absurd (ground (arith, P.connect-le targets w, P.now-ge w1)))
  retry-total (suc fuel) n start targets w enough =
      let w1 = (try_connect net clock targets w).1 in
      let w2 = (clock.now w1).1 in
      round-total (suc fuel) n start targets w (λ early.
        retry-total fuel n start targets (clock.sleep sleep_between_call w2) (
          omega (
            arith,
            P.connect-le targets w,
            P.now-ge w1,
            P.now-le w1,
            P.sleep-le sleep_between_call w2,
          )))

  -- On a clock that does not run backwards, with pauses that are as long as they should be and a
  -- timeout that is not negative: with one round of fuel more than there are pauses of two seconds in the timeout, the command
  -- ends with an exit code.
  pub main-total :
      (skip_checks : Bool) (targets : List String) (fuel n : ℕ) (w : W)
      → n * second ≤ fuel * sleep_between_call
      → Ends (
          main net clock
            (record { skip_checks = skip_checks; timeout = ℤ.pos n })
            targets
            (suc fuel)
            w)
  unfolding main
  main-total true [] fuel n w enough = ((0, w), refl)
  main-total false [] fuel n w enough = ((1, w), refl)
  main-total true (target ∷ targets) fuel n w enough = ((0, w), refl)
  main-total false (target ∷ targets) fuel n w enough =
      elim (Bool-cases (all_supported net clock (target ∷ targets))) [
        | inr e ↦ ((2, w), rw (main, e) refl)
        | inl e ↦
            let (r, p) =
              retry-total fuel n (clock.now w).0 (target ∷ targets) (clock.now w).1
                (omega (arith, P.now-le w)) in
            (r, rw (main, e) p)
      ]
