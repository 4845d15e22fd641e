-- ===== src/Resources/Service.antt =====
-- resources/service_resource.go: a service and the ports of its nodes.
use kube_bundler.Prelude.{String, Option, none, List, map}
use kube_bundler.Prelude.Int.{ℤ}
use kube_bundler.Go.Errors.{text, wrapped}
use kube_bundler.Go.Io.{Result, ok, panic, err, map_error}
use kube_bundler.Prelude.{[], ◌∷◌}
use kube_bundler.Resources.Handle.{deref}

-- `v1.ServicePort` and `v1.Service`, with the fields that are read.
pub record ServicePort : Type 0 where
  pub node_port : ℤ

pub record Service : Type 0 where
  pub ports : List ServicePort

-- `ServiceResource`, whose service is none until it is fetched.
pub record ServiceResource : Type 0 where
  pub category : String
  pub name : String
  pub namespace : String
  pub service : Option Service

abbrev pub new_service : String → String → String → ServiceResource
new_service category name namespace = record {
  category = category;
  name = name;
  namespace = namespace;
  service = none;
}

unfoldable pub node_ports : ServiceResource → Result (List ℤ)
node_ports s = elim (deref s.service) [
  | ok service ↦ ok (map (λ (p : ServicePort). p.node_port) service.ports)
  | err e ↦ err e
  | panic why ↦ panic why
]

-- `get` is `Get` of the client of the services, by namespace and name. What it returns beside an
-- error is stored too.
unfoldable pub fetch :
    {W : Type 0}
    → (String → String → W → (Option Service × Result (Unit {0})) × W)
    → ServiceResource
    → W
    → (ServiceResource × Result (Unit {0})) × W
fetch get s w =
    let ((service, r), w') = get s.namespace s.name w in
    (
      (
        record s { service = service },
        map_error (wrapped "Couldn't get service %s" (text s.name ∷ [])) r,
      ),
      w',
    )
