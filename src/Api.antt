-- ===== src/Api.antt =====
-- The custom resources of api/v1alpha1. The fields are those of the Go structs that some manager
-- reads or writes; type and list metadata, and the empty status structs, are left out.
pub mod Registry
pub mod Validate
use kube_bundler.Prelude.{String, Bool, List}
use kube_bundler.Prelude.Dict.{Dict}
use kube_bundler.Prelude.Int.{ℤ}

pub record GenerateSecret : Type 0 where
  pub format : String
  pub bytes : ℤ
  pub bits : ℤ

pub record ParameterSpec : Type 0 where
  pub name : String
  pub value : String
  pub generate_secret : GenerateSecret

pub record ParameterDefinitionSpec : Type 0 where
  pub name : String
  pub default : String
  pub description : String
  pub required : Bool
  pub generate_secret : GenerateSecret

pub record RequiresList : Type 0 where
  pub name : String
  pub suffix : String
  pub parameters : List ParameterSpec

pub record OutputDefinitionSpec : Type 0 where
  pub name : String
  pub description : String

pub record ProvidesList : Type 0 where
  pub name : String
  pub outputs : List OutputDefinitionSpec

pub record ImageSpec : Type 0 where
  pub image : String
  pub scheme : String

pub record Resource : Type 0 where
  pub name : String
  pub category : String
  pub type : String

pub record StatusList : Type 0 where
  pub endpoint : String
  pub expected_code : String

pub record ApplicationSpec : Type 0 where
  pub name : String
  pub version : String
  pub docker_registry : String
  pub deploy_image : String
  pub images : List ImageSpec
  pub parameter_definitions : List ParameterDefinitionSpec
  pub provides : List ProvidesList
  pub requires : List RequiresList
  pub resources : List Resource
  pub status : List StatusList

pub record Application : Type 0 where
  pub name : String
  pub namespace : String
  pub spec : ApplicationSpec

pub record InstallSpec : Type 0 where
  pub application : String
  pub version : String
  pub suffix : String
  pub deploy_image : String
  pub flavor : String
  pub docker_registry : String
  pub parameters : List ParameterSpec
  pub secrets : List ParameterSpec

pub record Install : Type 0 where
  pub name : String
  pub namespace : String
  pub spec : InstallSpec

pub record FlavorSpec : Type 0 where
  pub name : String
  pub stateful_quorum_replicas : ℤ
  pub stateful_replication_replicas : ℤ
  pub stateless_replicas : ℤ
  pub anti_affinity : String
  pub minimum_nodes : ℤ

pub record Flavor : Type 0 where
  pub name : String
  pub namespace : String
  pub spec : FlavorSpec

pub record BundleSpec : Type 0 where
  pub name : String
  pub version : String
  pub parameters : List ParameterSpec
  pub requires : List RequiresList

pub record SourceInfo : Type 0 where
  pub name : String
  pub section : String
  pub release : String

pub record ManifestSpec : Type 0 where
  pub flavor : String
  pub registry : String
  pub sources : List SourceInfo
  pub bundles : List BundleSpec
  pub cpu : String
  pub memory : String

pub record SourceSpec : Type 0 where
  pub type : String
  pub path : String
  pub options : Dict String

-- The zero value of GenerateSecret.
abbrev pub no_secret : GenerateSecret
no_secret = record { format = ""; bytes = ℤ.pos 0; bits = ℤ.pos 0 }

pub record Manifest : Type 0 where
  pub name : String
  pub namespace : String
  pub spec : ManifestSpec

-- The custom resource Source, where the managers have an interface of that name.
pub record SourceObject : Type 0 where
  pub name : String
  pub namespace : String
  pub spec : SourceSpec
