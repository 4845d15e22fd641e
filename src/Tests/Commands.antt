-- ===== src/Tests/Commands.antt =====
-- The command that waits, in a world that is the time: the targets answer after two seconds. And
-- the configuration of an install.
use kube_bundler.Prelude.{
  ℕ, ◌+◌, String, ◌≡◌, refl, Option, none, some, List, [], ◌∷◌, false, ltb, if◌then◌else◌, inr,
  arith, String-discrete, ◌≤◌,
}
use kube_bundler.Prelude.Int.{ℤ}
use kube_bundler.Go.Errors.{Error, errorf}
use kube_bundler.Api.{ParameterSpec, no_secret}
use kube_bundler.Cluster.Clients.{Clock}
use kube_bundler.Managers.Config.{override}
use kube_bundler.Managers.Config.Laws.{WasSet, set-WasSet}
use kube_bundler.Managers.Config
use kube_bundler.Managers.Config.{with_parameters}
use kube_bundler.Managers.Resource
use kube_bundler.Go.Io.{ok}
use kube_bundler.Parameter.Manager.{get_merged_map, merge_definitions, merge_parameters, value_of}
use kube_bundler.Prelude.Dict.{lookup, insert}
use kube_bundler.Api.{Install}
use kube_bundler.Cluster.Clients.{Objects}
use kube_bundler.Tests.Client.{client, install, ref}
use kube_bundler.Tests.World.{world}
use kube_bundler.Waitfor.{
  Network, Settings, supported_target, connect_host, try_connect, main, second, sleep_between_call,
}
use kube_bundler.Waitfor.Laws.{Reached, Passes, main-Reached, main-total}

abbrev clock : Clock ℕ
clock = record { now = λ w. (w, w); sleep = λ n w. w + n; rfc3339 = λ n. "now" }

abbrev answer : ℕ → Option Error
answer w = if ltb w second then some (errorf "refused" []) else none

abbrev network : Network ℕ
network = record {
  parse = λ target. inr (record { scheme = "tcp"; host = target });
  http_get = λ target w. (inr (ℤ.pos 200), w);
  dial = λ host w. (answer w, w);
}

abbrev settings : Settings
settings = record { skip_checks = false; timeout = ℤ.pos 10 }

abbrev targets : List String
targets = "redis" ∷ "postgres" ∷ []

main-Reached_example : (u : ℕ) × Reached network clock targets u sleep_between_call
unfolding main supported_target String-discrete try_connect connect_host
main-Reached_example = main-Reached network clock settings targets 3 0 sleep_between_call refl refl

connect_host-same : (target : String) (w : ℕ) → (connect_host network clock target w).1 ≡ w
unfolding connect_host String-discrete
connect_host-same target w = refl

try_connect-le : (ts : List String) (w : ℕ) → w ≤ (try_connect network clock ts w).1
unfolding try_connect
try_connect-le [] w = omega arith
try_connect-le (t ∷ ts) w =
    ground (arith, connect_host-same t w, try_connect-le ts (connect_host network clock t w).1)

network-Passes : Passes network clock
network-Passes = record {
  time = λ w. w;
  now-ge = λ w. omega arith;
  now-le = λ w. omega arith;
  connect-le = try_connect-le;
  sleep-le = λ n w. omega arith;
}

main-total_example : (r : ℕ × ℕ) × (main network clock settings targets 6 0 ≡ some r)
main-total_example = main-total network clock network-Passes false targets 5 10 0 (omega arith)

abbrev given : List ParameterSpec
given = record { name = "domain"; value = "example"; generate_secret = no_secret } ∷ []

abbrev installs : Objects ℕ Install
installs = record (client world).installs {
  get = λ name namespace w. (ok (with_parameters (install "web") given), w);
}

set-WasSet_example :
    WasSet installs
      (client world).applications
      (client world).secrets
      (client world).entropy
      ref
      "domain"
      "new"
      0
      0
unfolding Config.set get_merged_map merge_definitions merge_parameters String-discrete Resource.get
    Resource.patch lookup insert value_of
set-WasSet_example =
    set-WasSet installs (client world).applications (client world).secrets (client world).entropy
      ref "domain" "new" 0 0 refl
