-- ===== src/StatusCommand.antt =====
-- cmd/kb/subcommands/status.go: the command that asks the status server and prints what it answers.
pub mod Counts
pub mod Laws
pub mod Order
use kube_bundler.Prelude.{
  ℕ, ◌+◌, String, ◌<>◌, Bool, true, false, List, [], ◌∷◌, ◌++◌, ◌==◌, eqb, ◌&&◌, if◌then◌else◌,
  length,
}
use kube_bundler.Prelude.Int.{ℤ, eqb_ℤ, ltb_ℤ}
use kube_bundler.Go.Compare.{compare}
use kube_bundler.Go.Errors.{errorf, text}
use kube_bundler.Go.Io.{
  Io, Result, ok, err, panic, pure, crash, annotate, lift, attempt, ◌>>=◌, ◌>>◌,
}
use kube_bundler.StatusCommand.Counts.{
  Row, app_status_text, count_apps, count_resources, Line, failed, counted, line_errors, Summary,
}
use kube_bundler.Managers.Health.{AppStatus, EndpointStatus}

abbrev pub app_status_endpoint : String
app_status_endpoint = "application-status"

abbrev pub resource_status_endpoint : String
resource_status_endpoint = "resource-status"

-- The request to the service behind the API server, encoding/json, sort and the age of a time.
pub record StatusTools (W T : Type 0) : Type 0 where
  pub do_raw : String → Io W String
  pub decode_apps : String → Result (List AppStatus)
  pub decode_resources : String → Result (List (Row T))
  pub same_time : T → T → Bool  -- `==`
  pub sort_rows : (Row T → Row T → Bool) → List (Row T) → List (Row T)
  pub sort_apps : (AppStatus → AppStatus → Bool) → List AppStatus → List AppStatus
  pub row_age : T → W → String × W
  pub app_age : ℕ → W → String × W

module _ {T : Type 0} where
  -- The order of the rows: by category, then service, then name.
  unfoldable pub row_less : Row T → Row T → Bool
  row_less a b =
      let c1 = compare a.category b.category in
      let c2 = compare a.service b.service in
      let c3 = compare a.name b.name in
      if eqb_ℤ c1 (ℤ.pos 0)
      then if eqb_ℤ c2 (ℤ.pos 0)
        then if eqb_ℤ c3 (ℤ.pos 0) then false else ltb_ℤ c3 (ℤ.pos 0)
        else ltb_ℤ c2 (ℤ.pos 0)
      else ltb_ℤ c1 (ℤ.pos 0)

app_less : AppStatus → AppStatus → Bool
app_less a b = ltb_ℤ (compare a.app b.app) (ℤ.pos 0)

module _ {W T : Type 0} (t : StatusTools W T) where
  unfoldable pub get_health_status : String → Io W String
  get_health_status endpoint =
      annotate "Failed to retrieve health status results" [] (t.do_raw endpoint)

  unfoldable pub get_application_status : Io W (List AppStatus)
  unfolding get_health_status
  get_application_status = do
    answer ←
        annotate "Failed to retrieve application status results" []
          (get_health_status app_status_endpoint)
    annotate "Couldn't unmarshal application status results" [] (lift (t.decode_apps answer))

  unfoldable pub get_resource_status : Io W (List (Row T))
  unfolding get_health_status
  get_resource_status = do
    answer ←
        annotate "Failed to retrieve resource status results" []
          (get_health_status resource_status_endpoint)
    annotate "Couldn't unmarshal resource status results" [] (lift (t.decode_resources answer))

  app_line : Result (List AppStatus) → Line
  unfolding count_apps
  app_line (ok apps) = counted (count_apps apps)
  app_line (err e) = failed
  app_line (panic why) = failed

  resource_line : Result (List (Row T)) → Line
  unfolding count_resources
  resource_line (ok rs) = counted (count_resources rs)
  resource_line (err e) = failed
  resource_line (panic why) = failed

  -- `printStatus`, up to the layout.
  unfoldable pub print_status : Io W Summary
  unfolding get_application_status get_resource_status app_line resource_line
  print_status = do
    apps ← attempt get_application_status
    rs ← attempt get_resource_status
    pure (record {
      applications = app_line apps;
      resources = resource_line rs;
      errors = line_errors (app_line apps) ++ line_errors (resource_line rs);
    })

  -- The `==` of two rows, as keys of a map.
  unfoldable pub same_row : Row T → Row T → Bool
  same_row a b =
      a.category == b.category
      && (a.service == b.service
          && (a.name == b.name
              && (a.type == b.type
                  && (a.status == b.status
                      && (a.error == b.error && t.same_time a.last_updated b.last_updated)))))

  unfoldable pub has_row : List (Row T) → Row T → Bool
  unfolding same_row
  has_row [] r = false
  has_row (x ∷ xs) r = if same_row x r then true else has_row xs r

  -- The loop, with the keys of `resourceMap` and `uniqueResources`.
  unfoldable pub collect_unique : List (Row T) → List (Row T) → List (Row T) → List (Row T)
  unfolding has_row
  collect_unique [] keys unique = unique
  collect_unique (r ∷ rs) keys unique =
      collect_unique rs (if has_row keys r then keys else r ∷ keys)
        (if has_row keys r then unique else unique ++ (r ∷ []))

  unfoldable pub get_unique_resources : List (Row T) → List (Row T)
  unfolding collect_unique
  get_unique_resources rs = collect_unique rs [] []

  unfoldable pub sort_resource_status : List (Row T) → List (Row T)
  unfolding row_less
  sort_resource_status = t.sort_rows row_less

  -- The columns of a row, with its age.
  unfoldable pub print_rows : List (Row T) → Io W (List (List String))
  print_rows [] = pure []
  print_rows (r ∷ rs) = do
    age ← (λ w. let (a, u) = t.row_age r.last_updated w in (ok a, u))
    rest ← print_rows rs
    pure ((r.category ∷ r.service ∷ r.name ∷ r.type ∷ r.status ∷ r.error ∷ age ∷ []) ∷ rest)

  unfoldable pub print_resource_status : List (Row T) → Io W (List (List String))
  unfolding get_unique_resources sort_resource_status print_rows
  print_resource_status rs = print_rows (sort_resource_status (get_unique_resources rs))

  endpoint_rows : AppStatus → List EndpointStatus → Io W (List (List String))
  unfolding app_status_text
  endpoint_rows a [] = pure []
  endpoint_rows a (e ∷ es) = do
    age ← (λ w. let (x, u) = t.app_age a.last_updated w in (ok x, u))
    rest ← endpoint_rows a es
    pure ((a.app ∷ e.endpoint ∷ app_status_text e.status ∷ age ∷ []) ∷ rest)

  app_rows : List AppStatus → Io W (List (List String))
  unfolding endpoint_rows
  app_rows [] = pure []
  app_rows (a ∷ apps) = do
    here ← endpoint_rows a a.endpoints
    rest ← app_rows apps
    pure (here ++ rest)

  -- `printApplicationStatus`, where `<` of two names is written by `strings.Compare`.
  unfoldable pub print_application_status : Io W (List (List String))
  unfolding get_application_status app_less app_rows
  print_application_status = do
    apps ← annotate "Failed to print application status results" [] get_application_status
    app_rows (t.sort_apps app_less apps)
