-- ===== src/Api/Cluster.antt =====
-- api/v1alpha3/ucloudcluster_types.go, and what the program reads of the Cluster API's own types.
use cluster_api_provider_ucl.Prelude.{ℤ, String, Bool, Option, List}
use cluster_api_provider_ucl.Api.Network.{NetworkSpec, Network, BastionSpec, Instance, Group}

abbrev pub cluster_finalizer : String
cluster_finalizer = "ucloudcluster.infrastructure.cluster.x-k8s.io"

-- The parts of Kubernetes' `ObjectMeta` that the program reads or writes. `deletion_timestamp` is
-- `none` where `IsZero` holds.
pub record ObjectMeta : Type 0 where
  pub name : String
  pub namespace : String
  pub cluster_name : String
  pub uid : String
  pub creation_timestamp : String
  pub deletion_timestamp : Option String
  pub finalizers : List String
  pub annotations : Option (List (String × String))

-- The Cluster API's `APIEndpoint`.
pub record ApiEndpoint : Type 0 where
  pub host : String
  pub port : ℤ

-- The Cluster API's `FailureDomainSpec`.
pub record FailureDomainSpec : Type 0 where
  pub control_plane : Bool

pub record UcloudClusterSpec : Type 0 where
  pub project_id : String
  pub region : String
  pub version : String
  pub control_plane_endpoint : ApiEndpoint
  pub network : NetworkSpec
  pub bastion : BastionSpec

-- The map of failure domains has one entry for each key.
pub record UcloudClusterStatus : Type 0 where
  pub failure_domains : List (String × FailureDomainSpec)
  pub network : Network
  pub cluster_id : String
  pub bastion : Option Instance
  pub group : Group
  pub ready : Bool

pub record UcloudCluster : Type 0 where
  pub meta : ObjectMeta
  pub spec : UcloudClusterSpec
  pub status : UcloudClusterStatus

-- The Cluster API's `Cluster`, as far as the program reads it.
pub record Cluster : Type 0 where
  pub meta : ObjectMeta
  pub paused : Bool
  pub infrastructure_ref : Option String
  pub infrastructure_ready : Bool
  pub api_server_port : Option ℤ
  pub pod_cidr_blocks : List String
  pub service_cidr_blocks : List String
