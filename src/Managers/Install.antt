-- ===== src/Managers/Install.antt =====
-- managers/install.go: the creation of an install, and the description of installs.
pub mod Laws
use kube_bundler.Prelude.{
  String, ◌<>◌, Bool, true, false, Option, none, some, List, [], ◌∷◌, map, ◌==◌, if◌then◌else◌,
}
use kube_bundler.Prelude.Dict.{Dict}
use kube_bundler.Go.Errors.{Error, wrapped, text}
use kube_bundler.Go.Io.{
  Result, ok, err, panic, Io, pure, fail, crash, annotate, lift, attempt, ◌>>=◌, ◌>>◌,
}
use kube_bundler.Api.{Application, Install, ParameterSpec}
use kube_bundler.Cluster.Clients.{Objects}
use kube_bundler.Cluster.Objects.{Node}
use kube_bundler.Parameter.Manager.{ParameterDesc, get_parameter_desc}
use kube_bundler.Managers.Client.{KbClient, Libraries}
use kube_bundler.Managers.Resource
use kube_bundler.Managers.Util.{verify_node_requirements}

-- The arguments of `Install`.
pub record Request : Type 0 where
  pub app_name : String
  pub name : String
  pub namespace : String
  pub version : String
  pub suffix : String
  pub flavor : String
  pub docker_registry : String
  pub force : Bool
  pub parameters : List ParameterSpec

-- The name of the install: the name or the application's, with the suffix behind it.
unfoldable pub install_name : Request → String
install_name q =
    let base = if q.name == "" then q.app_name else q.name in
    if q.suffix == "" then base else base <> ("-" <> q.suffix)

-- The parameters are those of the one install that is there, if there is one.
unfoldable pub kept_parameters : List ParameterSpec → List Install → List ParameterSpec
kept_parameters given [] = given
kept_parameters given (existing ∷ []) = existing.spec.parameters
kept_parameters given (_ ∷ _ ∷ _) = given

unfoldable pub requested : Request → List Install → Install
unfolding install_name kept_parameters
requested q existing = record {
  name = install_name q;
  namespace = q.namespace;
  spec = record {
    application = q.app_name;
    version = q.version;
    suffix = q.suffix;
    deploy_image = "";
    flavor = q.flavor;
    docker_registry = q.docker_registry;
    parameters = kept_parameters q.parameters existing;
    secrets = [];
  };
}

-- `if err != nil { if force { … } else { return errors.Wrap(err, message) } }`
unfoldable pub unless_forced : {W : Type 0} → Bool → String → Result (Unit {0}) → Io W (Unit {0})
unless_forced force message (ok _) = pure tt
unless_forced force message (err e) = if force then pure tt else fail (wrapped message [] e)
unless_forced force message (panic why) = crash why

module _ {W Key U : Type 0} (c : KbClient W Key U) where
  node_names : Io W (List String)
  node_names = do ns ← c.nodes; pure (map (λ (n : Node). n.name) ns)

  unfoldable pub check_nodes : Request → Io W (Unit {0})
  unfolding node_names unless_forced verify_node_requirements
  check_nodes q = do
    r ← attempt (verify_node_requirements c.flavors node_names q.flavor q.namespace)
    unless_forced q.force "Insufficient nodes for install" r

  -- The list of the installs of that name.
  unfoldable pub find_existing : Request → Io W (List Install)
  unfolding install_name
  find_existing q =
      let fields : Dict String =
        ("metadata.name", install_name q) ∷ ("metadata.namespace", q.namespace) ∷ [] in
      let matching : Objects W Install = record c.installs { list = c.installs_matching fields } in
      annotate "couldn't list existing installs" []
        (Resource.list matching (λ i. i.name) (λ i. i.namespace) q.namespace)

  module _ (l : Libraries W U) where
    unfoldable pub apply_install : Install → Io W (Unit {0})
    apply_install i = do
      b ← annotate "couldn't encode json for install" [] (lift (l.json_install i))
      u ← annotate "couldn't decode json for install" [] (lift (l.unmarshal b))
      annotate "couldn't apply install" [] (Resource.apply c.unstructured l.name_of (λ u. "") u)

    unfoldable pub install : Request → Io W Install
    unfolding check_nodes find_existing apply_install requested
    install q = do
      check_nodes q
      existing ← find_existing q
      apply_install (requested q existing)
      pure (requested q existing)

-- `InstallDescription`
pub record InstallDescription : Type 0 where
  pub name : String
  pub application : String
  pub version : String
  pub parameters : Dict ParameterDesc

abbrev pub default_namespace : String
default_namespace = "default"

module _ {W Key U : Type 0} (c : KbClient W Key U) where
  unfoldable pub describe_installs : List Install → Io W (List InstallDescription)
  unfolding get_parameter_desc
  describe_installs [] = pure []
  describe_installs (i ∷ is) = do
    app ← annotate "couldn't get application" [] (
        Resource.get c.applications (λ a. a.name) (λ a. a.namespace)
          (i.spec.application <> ("-" <> i.spec.version)) default_namespace)
    rest ← describe_installs is
    pure (
        record {
          name = i.name;
          application = i.spec.application;
          version = i.spec.version;
          parameters = get_parameter_desc (record {
            install_name = i.name;
            definitions = app.spec.parameter_definitions;
            parameters = i.spec.parameters;
          });
        }
        ∷ rest)

  -- The first of the names, or every install if there is none.
  unfoldable pub chosen : List String → Io W (List Install)
  chosen [] =
      annotate "couldn't list installs" []
        (Resource.list c.installs (λ i. i.name) (λ i. i.namespace) default_namespace)
  chosen (name ∷ _) = do
    i ←
        annotate "couldn't get installs" []
          (Resource.get c.installs (λ i. i.name) (λ i. i.namespace) name default_namespace)
    pure (i ∷ [])

  unfoldable pub describe : List String → Io W (List InstallDescription)
  unfolding chosen describe_installs
  describe names = do is ← chosen names; describe_installs is
