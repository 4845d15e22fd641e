-- ===== src/Api/Validate.antt =====
-- `Application.Validate` of api/v1alpha1/application_types.go.
use kube_bundler.Prelude.{◌≡◌, ◌↔◌, [], arith, ◌==◌, if◌then◌else◌}
use kube_bundler.Go.Errors.{errorf}
use kube_bundler.Go.Io.{Result, ok, err}
use kube_bundler.Go.Text.{trim_space, IsBlank, trim_space-eq-nil_iff}
use kube_bundler.Api.{Application}

unfoldable pub validate : Application → Result (Unit {0})
validate a =
    if trim_space a.spec.name == ""
    then err (errorf "empty field 'name'" [])
    else if trim_space a.spec.version == ""
    then err (errorf "empty field 'version'" [])
    else if trim_space a.spec.deploy_image == ""
    then err (errorf "empty field 'deployImage'" [])
    else ok tt

-- An application definition is valid exactly if its name, its version and its deploy image each
-- hold a character that is not white space.
application-valid_iff :
    (a : Application)
    → (validate a ≡ ok tt)
      ↔ ((¬ IsBlank a.spec.name) × (¬ IsBlank a.spec.version) × (¬ IsBlank a.spec.deploy_image))
unfolding validate
application-valid_iff a = (
  λ h. ground (
    arith,
    trim_space-eq-nil_iff a.spec.name,
    trim_space-eq-nil_iff a.spec.version,
    trim_space-eq-nil_iff a.spec.deploy_image,
  ),
  λ h. ground (
    arith,
    trim_space-eq-nil_iff a.spec.name,
    trim_space-eq-nil_iff a.spec.version,
    trim_space-eq-nil_iff a.spec.deploy_image,
  ),
)
