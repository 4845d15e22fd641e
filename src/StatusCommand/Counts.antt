-- ===== src/StatusCommand/Counts.antt =====
-- cmd/kb/subcommands/status.go: what the summary counts, and its error lines.
use kube_bundler.Prelude.{
  ℕ, ◌+◌, String, ◌<>◌, List, [], ◌∷◌, ◌++◌, ◌==◌, eqb, if◌then◌else◌, length,
}
use kube_bundler.Go.Io.{}
use kube_bundler.Managers.Health.{AppStatus, EndpointStatus}

-- `ResourceStatus` as the answer is decoded. `T` is `time.Time`.
pub record Row (T : Type 0) : Type 0 where
  pub category : String
  pub service : String
  pub name : String
  pub type : String
  pub status : String
  pub error : String
  pub last_updated : T

-- `appStatusMap[status]`, which is "" for a status that is not in the map.
unfoldable pub app_status_text : ℕ → String
app_status_text status = if eqb status 0 then "down" else if eqb status 1 then "up" else ""

-- The line of an endpoint that is down, and of a resource that is not up.
unfoldable pub endpoint_error : String → EndpointStatus → String
unfolding app_status_text
endpoint_error app e = "* application \"" <> (app <> ("\" is " <> app_status_text e.status))

unfoldable pub endpoint_errors : String → List EndpointStatus → List String
unfolding app_status_text endpoint_error
endpoint_errors app [] = []
endpoint_errors app (e ∷ es) =
    let rest = endpoint_errors app es in
    if app_status_text e.status == "down" then endpoint_error app e ∷ rest else rest

unfoldable pub healthy_endpoints : List EndpointStatus → ℕ
unfolding app_status_text
healthy_endpoints [] = 0
healthy_endpoints (e ∷ es) =
    (if app_status_text e.status == "down" then 0 else 1) + healthy_endpoints es

-- `appHealthyCount` or `resourceHealthyCount`, the total beside it, and what is appended to `errList`.
pub record Counts : Type 0 where
  pub healthy : ℕ
  pub total : ℕ
  pub errors : List String

unfoldable pub count_apps : List AppStatus → Counts
unfolding endpoint_errors healthy_endpoints
count_apps [] = record { healthy = 0; total = 0; errors = [] }
count_apps (a ∷ apps) =
    let rest = count_apps apps in
    record {
      healthy = healthy_endpoints a.endpoints + rest.healthy;
      total = length a.endpoints + rest.total;
      errors = endpoint_errors a.app a.endpoints ++ rest.errors;
    }

module _ {T : Type 0} where
  unfoldable pub healthy_resources : List (Row T) → ℕ
  healthy_resources [] = 0
  healthy_resources (r ∷ rs) = (if r.status == "up" then 1 else 0) + healthy_resources rs

  unfoldable pub resource_errors : List (Row T) → List String
  resource_errors [] = []
  resource_errors (r ∷ rs) =
      let rest = resource_errors rs in
      if r.status == "up"
      then rest
      else ("* resource \"" <> (r.name <> ("\" is " <> r.status))) ∷ rest

  unfoldable pub count_resources : List (Row T) → Counts
  unfolding healthy_resources resource_errors
  count_resources rs = record {
    healthy = healthy_resources rs;
    total = length rs;
    errors = resource_errors rs;
  }

-- What the summary shows of one kind: an error, or the counts.
pub data Line : Type 0 where
  failed : Line
  counted : Counts → Line

abbrev pub line_errors : Line → List String
line_errors failed = []
line_errors (counted c) = c.errors

-- The lines of the summary, and `errList` behind them.
pub record Summary : Type 0 where
  pub applications : Line
  pub resources : Line
  pub errors : List String
