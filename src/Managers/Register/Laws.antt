-- ===== src/Managers/Register/Laws.antt =====
-- What the check of the dependencies accepts.
use kube_bundler.Prelude.{String, ◌≡◌, ◌≢◌, ◌⊎◌, true, List}
use kube_bundler.Api.{Application, RequiresList}
use kube_bundler.Managers.Util.{string_slice_contains}

-- A requirement is met by an application that is there or comes along, and is not the application
-- itself.
abbrev pub IsMet : List String → List String → Application → RequiresList → Type 0
IsMet installed planned app r =
    ((string_slice_contains installed r.name ≡ true)
      ⊎ (string_slice_contains planned r.name ≡ true))
    × (r.name ≢ app.spec.name)
