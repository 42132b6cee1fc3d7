-- ===== src/Service/Subnet.antt =====
-- cloud/services/subnet.go
pub mod Creates
use cluster_api_provider_ucl.Prelude.{
  pos, String, ◌<>◌, Bool, not, ◌||◌, Option, none, some, List, [], ◌∷◌, is_empty, if◌then◌else◌,
  ◌==◌, find_first,
}
use cluster_api_provider_ucl.Prelude.Text.{split, atoi_or_zero}
use cluster_api_provider_ucl.Go.{errorf, errorf_of, pure, fail, crash, ◌>>=◌}
use cluster_api_provider_ucl.Api.Cluster.{UcloudCluster}
use cluster_api_provider_ucl.Cloud.{
  Environment, VpcSubnetInfoSet, describe_subnet, create_subnet,
  delete_subnet as delete_subnet_call,
}
use cluster_api_provider_ucl.Scope.{ClusterScope, Op, request, with_cluster, update_cluster}
use cluster_api_provider_ucl.Scope.Cluster
use cluster_api_provider_ucl.Service.Call.{request_but, set_network}

-- An optional field that is set unless the text is empty.
abbrev pub unless_empty : String → Option String
unless_empty id = if is_empty id then none else some id

module _ (sc : ClusterScope) where
  abbrev pub subnet_name : UcloudCluster → String
  subnet_name c =
      if is_empty c.spec.network.subnet.subnet_name
      then "cluster-api-" <> Cluster.name sc <> "-subnet"
      else c.spec.network.subnet.subnet_name

  abbrev pub subnet_matches : UcloudCluster → VpcSubnetInfoSet → Bool
  subnet_matches c n =
      n.subnet_name == subnet_name c || n.subnet_id == c.spec.network.subnet.subnet_id

-- `strings.Split(cidr, "/")`, whose piece 1 the source reads: a panic if there is no slash.
unfoldable pub cidr_parts {ℓ} : {A : Type ℓ} → List String → (String → String → A) → A → A
cidr_parts (address ∷ mask ∷ rest) found missing = found address mask
cidr_parts _ found missing = missing

module _ (E : Environment) (sc : ClusterScope) where
  create_subnet_at : UcloudCluster → String → String → String → Op E VpcSubnetInfoSet
  create_subnet_at c vpc_id address mask = do
    let name = subnet_name sc c
    id ←
        request E
          (λ _.
            errorf "create subnet failed: name %s, cidr %s"
              (name ∷ c.spec.network.subnet.cidr_block ∷ []))
          (create_subnet (record {
            region = Cluster.region c;
            project_id = Cluster.project_id c;
            subnet_name = name;
            subnet = address;
            netmask = atoi_or_zero mask;
            vpc_id = vpc_id;
            tag = Cluster.group_name c;
          }))
    pure (record { subnet_name = name; subnet = address; netmask = mask; subnet_id = id })

  new_subnet : UcloudCluster → String → Op E VpcSubnetInfoSet
  unfolding create_subnet_at
  new_subnet c vpc_id =
      cidr_parts (split c.spec.network.subnet.cidr_block b'/') (create_subnet_at c vpc_id)
        (crash "index out of range")

  find_or_create_subnet : UcloudCluster → String → Op E VpcSubnetInfoSet
  unfolding new_subnet
  find_or_create_subnet c vpc_id = do
    subnets ← request E (errorf_of "describe subnet failed: %s" []) (
        describe_subnet (record {
          region = Cluster.region c;
          project_id = Cluster.project_id c;
          vpc_id = vpc_id;
          tag = Cluster.group_name c;
          subnet_id = unless_empty c.spec.network.subnet.subnet_id;
        }))
    elim (find_first (subnet_matches sc c) subnets) [ some n ↦ pure n | none ↦ new_subnet c vpc_id ]

  abbrev record_subnet : String → VpcSubnetInfoSet → UcloudCluster → UcloudCluster
  record_subnet vpc_id found = set_network (λ n. record n {
    subnet = record (n.subnet) {
      cidr_block = found.subnet <> "/" <> found.netmask;
      subnet_name = found.subnet_name;
      subnet_id = found.subnet_id;
      vpc_id = vpc_id;
    };
  })

  establish_subnet : UcloudCluster → String → Op E Unit
  unfolding find_or_create_subnet
  establish_subnet c vpc_id = do
    found ← find_or_create_subnet c vpc_id
    update_cluster (record_subnet vpc_id found)

  unfoldable pub reconcile_subnet : Op E Unit
  unfolding establish_subnet
  reconcile_subnet = with_cluster λ c.
      if not (is_empty c.status.network.subnet.subnet_id)
      then pure tt
      else if is_empty c.status.network.vpc.vpc_id
      then fail (errorf "vpc is not created, subnet must be owned by a vpc" [])
      else establish_subnet c c.status.network.vpc.vpc_id

module _ (E : Environment) where
  unfoldable pub delete_subnet : Op E Unit
  delete_subnet = with_cluster λ c.
      let id = c.status.network.subnet.subnet_id in
      if is_empty id
      then pure tt
      else if c.spec.network.subnet.subnet_id == id
      then pure tt
      else request_but E (pos 8039) (λ _. errorf "delete subnet %s failed" (id ∷ []))
          (delete_subnet_call (record {
            region = Cluster.region c;
            project_id = Cluster.project_id c;
            subnet_id = id;
          }))
