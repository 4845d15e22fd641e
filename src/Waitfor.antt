-- ===== src/Waitfor.antt =====
-- cmd/waitfor/main.go: the command that waits until all its targets answer. The network is a
-- parameter. Durations are in nanoseconds; the source compares seconds as floating point numbers.
pub mod Laws
use kube_bundler.Prelude.{
  ℕ, zero, suc, ◌-◌, ◌*◌, String, Bool, true, false, ◌&&◌, Option, none, some, List, [], ◌∷◌, ◌⊎◌,
  inl, inr, ◌==◌, if◌then◌else◌, leb,
}
use kube_bundler.Prelude.Int.{ℤ, leb_ℤ, ltb_ℤ}
use kube_bundler.Go.Errors.{Error, errorf, text, int}
use kube_bundler.Cluster.Clients.{Clock}

abbrev pub second : ℕ
second = 1_000_000_000

abbrev pub sleep_between_call : ℕ
sleep_between_call = 2 * second

pub record Url : Type 0 where
  pub scheme : String
  pub host : String

-- net/url, net/http and net: a GET gives an error or a status code.
pub record Network (W : Type 0) : Type 0 where
  pub parse : String → Error ⊎ Url
  pub http_get : String → W → (Error ⊎ ℤ) × W
  pub dial : String → W → Option Error × W

-- The flag and the environment: `WAITFOR_SKIPCHECKS` is "true".
pub record Settings : Type 0 where
  pub skip_checks : Bool
  pub timeout : ℤ

unfoldable pub is_http : String → Bool
is_http scheme = if scheme == "http" then true else scheme == "https"

module _ {W : Type 0} (net : Network W) (clock : Clock W) where
  unfoldable pub supported_target : String → Bool
  unfolding is_http
  supported_target target = elim (net.parse target) [
    | inl _ ↦ false
    | inr u ↦ if is_http u.scheme then true else u.scheme == "tcp"
  ]

  unfoldable pub check_status : Error ⊎ ℤ → Option Error
  check_status (inl e) = some e
  check_status (inr code) =
      if leb_ℤ (ℤ.pos 200) code && ltb_ℤ code (ℤ.pos 300)
      then none
      else some (errorf "GET returned non-2XX response: %d" (int code ∷ []))

  unfoldable pub connect_url : String → Url → W → Option Error × W
  unfolding is_http check_status
  connect_url target u w =
      if is_http u.scheme
      then (let (r, w') = net.http_get target w in (check_status r, w'))
      else if u.scheme == "tcp"
      then net.dial u.host w
      else (some (errorf "unknown scheme: %v" (text u.scheme ∷ [])), w)

  unfoldable pub connect_host : String → W → Option Error × W
  unfolding connect_url
  connect_host target w = elim (net.parse target) [
    | inl e ↦ (some e, w)
    | inr u ↦ connect_url target u w
  ]

  unfoldable pub try_connect : List String → W → Bool × W
  try_connect [] w = (true, w)
  try_connect (target ∷ targets) w =
      let (r, w') = connect_host target w in
      let rest = try_connect targets w' in elim r [ some _ ↦ (false, w') | none ↦ rest ]

  unfoldable pub timeout_reached : ℤ → ℕ → Bool
  timeout_reached (ℤ.pos n) elapsed = leb (n * second) elapsed
  timeout_reached (ℤ.negsuc n) elapsed = true

  -- `none` means that the fuel ran out; otherwise the exit code.
  unfoldable pub retry : ℕ → ℤ → ℕ → List String → W → Option (ℕ × W)
  unfolding timeout_reached
  retry zero timeout start targets w = none
  retry (suc fuel) timeout start targets w =
      let (up, w1) = try_connect targets w in
      let (time, w2) = clock.now w1 in
      let rest = retry fuel timeout start targets (clock.sleep sleep_between_call w2) in
      if up
      then some (0, w1)
      else if timeout_reached timeout (time - start)
      then some (3, w2)
      else rest

  unfoldable pub all_supported : List String → Bool
  all_supported [] = true
  all_supported (target ∷ targets) =
      let rest = all_supported targets in if supported_target target then rest else false

  unfoldable pub main : Settings → List String → ℕ → W → Option (ℕ × W)
  unfolding all_supported retry
  main settings [] fuel w = if settings.skip_checks then some (0, w) else some (1, w)
  main settings (target ∷ targets) fuel w =
      if settings.skip_checks
      then some (0, w)
      else if all_supported (target ∷ targets)
      then (let (start, w') = clock.now w in
          retry fuel settings.timeout start (target ∷ targets) w')
      else some (2, w)
