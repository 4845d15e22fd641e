-- ===== src/Managers/Health.antt =====
-- managers/status_app.go and status_node.go: the checks of an endpoint, of an application and of
-- the conditions of a node.
use kube_bundler.Prelude.{
  ℕ, String, ◌<>◌, Bool, not, ◌&&◌, ◌||◌, Option, none, some, List, [], ◌∷◌, ◌++◌, ◌==◌,
  if◌then◌else◌,
}
use kube_bundler.Prelude.Dict.{Dict, lookup}
use kube_bundler.Prelude.Int.{ℤ, leb_ℤ, ltb_ℤ}
use kube_bundler.Go.Contains.{contains}
use kube_bundler.Go.Decimal.{decimal}
use kube_bundler.Go.Errors.{errorf, text, int}
use kube_bundler.Go.Io.{Result, ok, err, panic, Io, pure, fail, crash, lift, attempt, ◌>>=◌, ◌>>◌}
use kube_bundler.Go.Text.{trim_space}
use kube_bundler.Api.{Application, ParameterDefinitionSpec, StatusList}
use kube_bundler.Cluster.Clients.{Clock}
use kube_bundler.Cluster.Objects.{Condition}

pub record Url : Type 0 where
  pub scheme : String
  pub host : String

-- net/url, net/http, net and text/template, and the gauge of the metrics. `get true` does not
-- verify certificates.
pub record Network (W : Type 0) : Type 0 where
  pub parse : String → Result Url
  pub get : Bool → String → Io W ℤ  -- the status code
  pub dial : String → Io W (Unit {0})
  pub parse_template : String → Option String  -- nil if it cannot be parsed
  pub execute : String → String → String → Result String  -- with the suffix and the namespace
  pub set_gauge : List String → ℕ → W → W

-- Whether the answer is the expected one, or any of 200 to 299 where none is expected.
unfoldable pub check_code : String → ℤ → Result (Unit {0})
unfolding decimal
check_code expected code =
    if not (expected == "")
    then (if decimal code == expected
        then ok tt
        else err (
            errorf "GET returned response: %s and the expectedCode is %s"
              (text (decimal code) ∷ text expected ∷ [])))
    else if leb_ℤ (ℤ.pos 200) code && ltb_ℤ code (ℤ.pos 300)
    then ok tt
    else err (errorf "GET returned non-2XX response: %d" (int code ∷ []))

module _ {W : Type 0} (n : Network W) where
  http_check : String → String → Io W (Unit {0})
  unfolding check_code contains
  http_check endpoint expected = do
    code ← n.get (contains endpoint "vault") endpoint
    lift (check_code expected code)

  unfoldable pub check_url : String → String → Url → Io W (Unit {0})
  unfolding http_check
  check_url endpoint expected u =
      if u.scheme == "http" || u.scheme == "https"
      then http_check endpoint expected
      else if u.scheme == "tcp"
      then n.dial u.host
      else fail (errorf "Endpoint scheme must be http/https/tcp" [])

  unfoldable pub endpoint_health_check : String → String → Io W (Unit {0})
  unfolding check_url
  endpoint_health_check endpoint expected = do
    u ← lift (n.parse endpoint)
    check_url endpoint expected u

pub record EndpointStatus : Type 0 where
  pub endpoint : String
  pub status : ℕ

pub record AppStatus : Type 0 where
  pub app : String
  pub endpoints : List EndpointStatus
  pub last_updated : ℕ

-- The default of the last definition of that name, before which the variable has a value.
unfoldable pub last_default : String → String → List ParameterDefinitionSpec → String
last_default name value [] = value
last_default name value (d ∷ ds) =
    last_default name (if d.name == name then d.default else value) ds

module _ {W : Type 0} (n : Network W) where
  gauge : String → String → ℕ → Io W (Unit {0})
  gauge app endpoint value w = (ok tt, n.set_gauge (app ∷ endpoint ∷ []) value w)

  status_value : Result (Unit {0}) → ℕ
  status_value (ok _) = 1
  status_value (err e) = 0
  status_value (panic why) = 0

  unfoldable pub check_rendered : String → String → String → Io W (List EndpointStatus)
  unfolding endpoint_health_check gauge status_value
  check_rendered app expected endpoint = do
    r ← attempt (endpoint_health_check n endpoint expected)
    gauge app endpoint (status_value r)
    pure (record { endpoint = endpoint; status = status_value r } ∷ [])

  -- An endpoint that cannot be filled in is passed over.
  unfoldable pub check_filled : String → String → Result String → Io W (List EndpointStatus)
  unfolding check_rendered
  check_filled app expected (ok endpoint) = check_rendered app expected endpoint
  check_filled app expected (err e) = pure []
  check_filled app expected (panic why) = crash why

  -- The error of the parse is dropped: a template that cannot be parsed is a nil pointer.
  unfoldable pub check_template :
      String → String → String → String → Option String → Io W (List EndpointStatus)
  unfolding check_filled
  check_template app suffix namespace expected none =
      crash "invalid memory address or nil pointer dereference"
  check_template app suffix namespace expected (some t) =
      check_filled app expected (n.execute t suffix namespace)

  unfoldable pub check_endpoints :
      String → String → String → List StatusList → Io W (List EndpointStatus)
  unfolding check_template
  check_endpoints app suffix namespace [] = pure []
  check_endpoints app suffix namespace (s ∷ rest) = do
    found ←
        (if trim_space s.endpoint == ""
          then pure []
          else check_template app suffix namespace s.expected_code (n.parse_template s.endpoint))
    more ← check_endpoints app suffix namespace rest
    pure (found ++ more)

  read_clock : Clock W → Io W ℕ
  read_clock clock w = let (time, w') = clock.now w in (ok time, w')

  -- A round of `runApplicationCheck`, up to the store of its result.
  unfoldable pub check_application : Clock W → Application → Io W AppStatus
  unfolding check_endpoints last_default read_clock
  check_application clock app = do
    time ← read_clock clock
    found ←
        check_endpoints app.name (last_default "suffix" "" app.spec.parameter_definitions)
          (last_default "namespace" "" app.spec.parameter_definitions) app.spec.status
    pure (record { app = app.name; endpoints = found; last_updated = time })

pub record DetailStatus : Type 0 where
  pub name : String
  pub value : String
  pub healthy : String

abbrev pub cluster_checks : Dict String
cluster_checks = ("MemoryPressure", "False") ∷ ("PIDPressure", "False") ∷ ("Ready", "True") ∷ []

module _ {W : Type 0} (n : Network W) where
  check_gauge : List String → Bool → Io W (Unit {0})
  check_gauge labels healthy w = (ok tt, n.set_gauge labels (if healthy then 1 else 0) w)

  judge_condition : String → Condition → Option String → Io W (List DetailStatus)
  unfolding check_gauge
  judge_condition node x none = pure []
  judge_condition node x (some wanted) = do
    check_gauge (node ∷ "condition" ∷ x.type ∷ []) (x.status == wanted)
    pure (
        record {
          name = x.type;
          value = x.status;
          healthy = if x.status == wanted then "true" else "false";
        }
        ∷ [])

  -- The conditions of a node that are looked at.
  unfoldable pub check_conditions : String → List Condition → Io W (List DetailStatus)
  unfolding judge_condition
  check_conditions node [] = pure []
  check_conditions node (x ∷ rest) = do
    found ← judge_condition node x (lookup x.type cluster_checks)
    more ← check_conditions node rest
    pure (found ++ more)

  -- `checkNodeConditionStatus`: the node as it was stored, if it is there.
  unfoldable pub check_node_condition_status :
      String → Option (List Condition) → Io W (List DetailStatus)
  unfolding check_conditions
  check_node_condition_status node none = pure []
  check_node_condition_status node (some conditions) = check_conditions node conditions

  ssh_status : Result (Unit {0}) → DetailStatus
  ssh_status (ok _) = record { name = "sshDaemonset"; value = "up"; healthy = "true" }
  ssh_status (err e) = record { name = "sshDaemonset"; value = "down"; healthy = "false" }
  ssh_status (panic why) = record { name = "sshDaemonset"; value = "down"; healthy = "false" }

  unfoldable pub check_ssh_daemonset : String → String → Io W DetailStatus
  unfolding endpoint_health_check ssh_status
  check_ssh_daemonset ssh_port ip = do
    r ← attempt (endpoint_health_check n ("tcp://" <> (ip <> (":" <> ssh_port))) "")
    pure (ssh_status r)
