-- ===== src/Service/Vpc.antt =====
-- cloud/services/vpc.go
pub mod Adopts
use cluster_api_provider_ucl.Prelude.{
  pos, String, ◌<>◌, Bool, ◌||◌, Option, none, some, List, [], ◌∷◌, is_empty, if◌then◌else◌, ◌==◌,
  find_first,
}
use cluster_api_provider_ucl.Go.{Error, errorf, errorf_of, pure, gets, modify, ◌>>=◌, ◌>>◌, ok}
use cluster_api_provider_ucl.Api.Network.{VpcSpec}
use cluster_api_provider_ucl.Api.Cluster.{UcloudCluster}
use cluster_api_provider_ucl.Cloud.{
  Environment, VpcInfo, DescribeVpcRequest, describe_vpc, create_vpc, delete_vpc as delete_vpc_call,
}
use cluster_api_provider_ucl.Scope.{ClusterScope, Op, request, with_cluster, update_cluster}
use cluster_api_provider_ucl.Scope.Cluster
use cluster_api_provider_ucl.Service.Call.{request_but, first, set_network}

module _ (sc : ClusterScope) where
  abbrev pub vpc_name : UcloudCluster → String
  vpc_name c =
      if is_empty c.spec.network.vpc.vpc_name
      then "cluster-api-" <> Cluster.name sc <> "-vpc"
      else c.spec.network.vpc.vpc_name

  -- The test of the loop over `vpcs.DataSet`.
  abbrev pub vpc_matches : UcloudCluster → VpcInfo → Bool
  vpc_matches c v = v.name == vpc_name c || v.vpc_id == c.spec.network.vpc.vpc_id

abbrev pub ids_of : String → List String
ids_of id = if is_empty id then [] else id ∷ []

abbrev pub record_vpc : VpcInfo → String → UcloudCluster → UcloudCluster
record_vpc v cidr = set_network (λ n. record n {
  vpc = record (n.vpc) { cidr_block = cidr; vpc_name = v.name; vpc_id = v.vpc_id };
})

module _ (E : Environment) (sc : ClusterScope) where
  unfoldable pub new_vpc : UcloudCluster → Op E VpcInfo
  new_vpc c = do
    let spec = c.spec.network.vpc
    let name = vpc_name sc c
    id ←
        request E (λ _. errorf "create vpc failed: name %s, cidr %s" (name ∷ spec.cidr_block ∷ []))
          (create_vpc (record {
            region = Cluster.region c;
            project_id = Cluster.project_id c;
            name = name;
            network = spec.cidr_block ∷ [];
            tag = Cluster.group_name c;
          }))
    pure (record { name = name; network = spec.cidr_block ∷ []; vpc_id = id })

  find_or_create_vpc : UcloudCluster → Op E VpcInfo
  unfolding new_vpc
  find_or_create_vpc c = do
    vpcs ← request E (errorf_of "describe vpc failed: %s" []) (
        describe_vpc (record {
          region = Cluster.region c;
          project_id = Cluster.project_id c;
          tag = Cluster.group_name c;
          vpc_ids = ids_of c.spec.network.vpc.vpc_id;
        }))
    elim (find_first (vpc_matches sc c) vpcs) [ some v ↦ pure v | none ↦ new_vpc c ]

  establish_vpc : UcloudCluster → Op E Unit
  unfolding find_or_create_vpc
  establish_vpc c = do
    v ← find_or_create_vpc c
    cidr ← first v.network
    update_cluster (record_vpc v cidr)

  unfoldable pub reconcile_vpc : Op E Unit
  unfolding establish_vpc
  reconcile_vpc =
      with_cluster λ c. if is_empty c.status.network.vpc.vpc_id then establish_vpc c else pure tt

module _ (E : Environment) where
  unfoldable pub delete_vpc : Op E Unit
  delete_vpc = with_cluster λ c.
      let id = c.status.network.vpc.vpc_id in
      if is_empty id
      then pure tt
      else if c.spec.network.vpc.vpc_id == id
      then pure tt
      else request_but E (pos 58103) (λ _. errorf "delete vpc %s failed" (id ∷ []))
          (delete_vpc_call
            (record { region = Cluster.region c; project_id = Cluster.project_id c; vpc_id = id }))
