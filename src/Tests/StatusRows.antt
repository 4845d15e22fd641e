-- ===== src/Tests/StatusRows.antt =====
-- The status command against a server that answers.
use kube_bundler.Prelude.{suc}
use kube_bundler.StatusCommand.Counts.{Row}
use kube_bundler.StatusCommand.{StatusTools, get_unique_resources, row_less}
use kube_bundler.Prelude.{ℕ, String, [], ◌∷◌, arith, eqb}
use kube_bundler.Go.Io.{ok}
use kube_bundler.Managers.Health.{AppStatus}
use kube_bundler.StatusCommand.Laws.{IsUnique, get_unique_resources-IsUnique}
use kube_bundler.StatusCommand.Order.{IsStrictOrder, SameKey, row_less-IsStrictOrder}

abbrev row : String → String → Row ℕ
row name status = record {
  category = "app";
  service = "web";
  name = name;
  type = "deployment";
  status = status;
  error = "";
  last_updated = 0;
}

abbrev web : AppStatus
web = record {
  app = "web";
  endpoints =
      record { endpoint = "http://a"; status = 0 }
      ∷ record { endpoint = "http://b"; status = 1 }
      ∷ [];
  last_updated = 0;
}

-- The state of the server is the number of ages that were asked for.
abbrev server : StatusTools ℕ ℕ
server = record {
  do_raw = λ endpoint n. (ok endpoint, n);
  decode_apps = λ answer. ok (web ∷ []);
  decode_resources = λ answer. ok (row "a" "up" ∷ row "b" "down" ∷ row "a" "up" ∷ []);
  same_time = eqb;
  sort_rows = λ less rs. rs;
  sort_apps = λ less apps. apps;
  row_age = λ time n. ("1m", suc n);
  app_age = λ time n. ("1m", suc n);
}

get_unique_resources-IsUnique_example :
    IsUnique server
      (row "a" "up" ∷ row "b" "down" ∷ row "a" "up" ∷ [])
      (get_unique_resources server (row "a" "up" ∷ row "b" "down" ∷ row "a" "up" ∷ []))
get_unique_resources-IsUnique_example =
    get_unique_resources-IsUnique server (λ a b. ground arith)
      (row "a" "up" ∷ row "b" "down" ∷ row "a" "up" ∷ [])

row_less-IsStrictOrder_example : IsStrictOrder {A = Row ℕ} row_less SameKey
row_less-IsStrictOrder_example = row_less-IsStrictOrder {T = ℕ}
