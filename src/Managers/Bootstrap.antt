-- ===== src/Managers/Bootstrap.antt =====
-- managers/bootstrap.go: the definitions, bindings and flavors that a cluster gets first.
pub mod Laws
use kube_bundler.Prelude.{String, Bool, List, [], ◌∷◌, if◌then◌else◌}
use kube_bundler.Go.Errors.{text}
use kube_bundler.Go.Io.{Io, pure, annotate, lift, ◌>>=◌, ◌>>◌}
use kube_bundler.Managers.Client.{KbClient, Libraries}
use kube_bundler.Managers.Embedded.{Embedded, each_file}
use kube_bundler.Managers.Resource

abbrev pub crd_dir : String
crd_dir = "resources/crds"

abbrev pub binding_dir : String
binding_dir = "resources/bindings"

abbrev pub flavor_dir : String
flavor_dir = "resources/flavors"

-- `K0S`
abbrev pub k0s : String
k0s = "k0s"

-- `GKE`
abbrev pub gke : String
gke = "gke"

pub record GcrInfo : Type 0 where
  pub registry_url : String
  pub project_id : String

module _ {W Key U Args : Type 0} (c : KbClient W Key U) (l : Libraries W U)
    (b : Embedded Args U) where
  -- The body of the three loops. The messages about a file that cannot be read differ.
  unfoldable pub apply_file : String → String → String → Io W (Unit {0})
  apply_file unreadable dir name = do
    content ← annotate unreadable (text name ∷ []) (lift (b.read_file (b.join (dir ∷ name ∷ []))))
    u ← annotate "couldn't unmarshal yaml in file '%s'" (text name ∷ []) (lift (b.yaml content))
    annotate "couldn't apply yaml from file '%s'" (text name ∷ [])
        (Resource.apply c.unstructured l.name_of (λ u. "") u)

  unfoldable pub deploy_crds : Io W (Unit {0})
  unfolding each_file apply_file
  deploy_crds = do
    entries ← annotate "couldn't read embeded files" [] (lift (b.read_dir crd_dir))
    each_file (apply_file "couldn't read embeded file %q" crd_dir) entries

  unfoldable pub deploy_bindings : Io W (Unit {0})
  unfolding each_file apply_file
  deploy_bindings = do
    entries ← annotate "couldn't read embeded files" [] (lift (b.read_dir binding_dir))
    each_file (apply_file "couldn't read embeded file %q" binding_dir) entries

  unfoldable pub deploy_flavors : Io W (Unit {0})
  unfolding each_file apply_file
  deploy_flavors = do
    entries ← annotate "couldn't read embedded flavor files" [] (lift (b.read_dir flavor_dir))
    each_file (apply_file "couldn't read embedded file %q" flavor_dir) entries

  -- `if !skip { err := m(); if err != nil { return errors.Wrap(err, message) } }`
  abbrev pub unless : Bool → String → Io W (Unit {0}) → Io W (Unit {0})
  unless skip message m = if skip then pure tt else annotate message [] m

  -- `deploy_proxy` is `(*RegistryManager).DeployProxy`.
  unfoldable pub deploy_all :
      Bool
      → Bool
      → Bool
      → Bool
      → (String → GcrInfo → Io W (Unit {0}))
      → String
      → GcrInfo
      → Io W (Unit {0})
  unfolding deploy_crds deploy_bindings deploy_flavors
  deploy_all skip_crds skip_bindings skip_flavors skip_airgap deploy_proxy provider gcr_info = do
    unless skip_crds "couldn't deploy CRDs" deploy_crds
    unless skip_bindings "couldn't deploy bindings" deploy_bindings
    unless skip_flavors "couldn't deploy flavors" deploy_flavors
    unless skip_airgap "couldn't deploy registry nginx proxy required for airgap support"
        (deploy_proxy provider gcr_info)
