-- ===== src/Resources/Handle.antt =====
-- What every kind of resource holds: the fields of `DeploymentResource` and of its siblings, which
-- are alike but for the client. A handle is new until it is fetched.
use kube_bundler.Prelude.{String, Option, none, some}
use kube_bundler.Prelude.Int.{ℤ}
use kube_bundler.Go.Io.{Result, ok, panic}

pub record Handle : Type 0 where
  pub category : String
  pub service_name : String
  pub name : String
  pub namespace : String
  pub available_replicas : ℤ
  pub total_replicas : ℤ

unfoldable pub new_handle : String → String → String → String → Handle
new_handle category service_name name namespace = record {
  category = category;
  service_name = service_name;
  name = name;
  namespace = namespace;
  available_replicas = ℤ.pos 0;
  total_replicas = ℤ.pos 0;
}

-- `*p`
abbrev pub deref {ℓ} : {A : Type ℓ} → Option A → Result A
deref none = panic "invalid memory address or nil pointer dereference"
deref (some a) = ok a
