-- ===== src/Service/Subnet/Creates.antt =====
-- The subnet that `ReconcileSubnet` creates, by the block of addresses in the spec.
use cluster_api_provider_ucl.Prelude.{
  find_first-none, All, All-mono, ◌⊎◌, arith, eq_iff, ◌≡◌, refl, ap, ◌∙◌, String, ◌<>◌, true, false,
  Option, none, some, List, [], ◌∷◌, is_empty, find_first,
}
use cluster_api_provider_ucl.Prelude.Text.{split, atoi_or_zero}
use cluster_api_provider_ucl.Go.{Result, ok, panic, pure, ◌>>=◌}
use cluster_api_provider_ucl.Api.Cluster.{UcloudCluster}
use cluster_api_provider_ucl.Cloud.{
  Environment, Call, VpcSubnetInfoSet, describe_subnet, create_subnet,
}
use cluster_api_provider_ucl.Scope.{ClusterScope, State, with_cluster, update_cluster}
use cluster_api_provider_ucl.Scope.Calls.{reply_to, after_call, request-ok}
use cluster_api_provider_ucl.Scope.Cluster
use cluster_api_provider_ucl.Service.Subnet.{
  subnet_name, subnet_matches, unless_empty, cidr_parts, create_subnet_at, new_subnet,
  record_subnet, establish_subnet, find_or_create_subnet, reconcile_subnet,
}

module _ (E : Environment) (sc : ClusterScope) (s : State E.World) where
  abbrev c : UcloudCluster
  c = s.ucloud_cluster

  abbrev vpc : String
  vpc = c.status.network.vpc.vpc_id

  abbrev pub look_call : Call
  look_call = describe_subnet (record {
    region = Cluster.region c;
    project_id = Cluster.project_id c;
    vpc_id = vpc;
    tag = Cluster.group_name c;
    subnet_id = unless_empty c.spec.network.subnet.subnet_id;
  })

  abbrev pub make_call : String → String → Call
  make_call address mask = create_subnet (record {
    region = Cluster.region c;
    project_id = Cluster.project_id c;
    subnet_name = subnet_name sc c;
    subnet = address;
    netmask = atoi_or_zero mask;
    vpc_id = vpc;
    tag = Cluster.group_name c;
  })

  -- A subnet with the name that the subnet of this cluster is to have, or with the id in its spec.
  abbrev pub IsFor : VpcSubnetInfoSet → Type 0
  IsFor n = (n.subnet_name ≡ subnet_name sc c) ⊎ (n.subnet_id ≡ c.spec.network.subnet.subnet_id)

  matches-other : (n : VpcSubnetInfoSet) → ¬ IsFor n → subnet_matches sc c n ≡ false
  matches-other n h = ground (
    arith,
    eq_iff n.subnet_name (subnet_name sc c),
    eq_iff n.subnet_id c.spec.network.subnet.subnet_id,
  )

  -- The status has no subnet but a VPC, and UCloud shows no subnet with the name or the id.
  pub record IsWanting : Type 0 where
    pub unset : is_empty c.status.network.subnet.subnet_id ≡ true
    pub has_vpc : is_empty vpc ≡ false
    pub answered : (reply_to E look_call s).error ≡ none
    pub absent : All (λ n. ¬ IsFor n) (reply_to E look_call s).body

  -- What follows the search, by the subnet that it found.
  abbrev after_look : Option VpcSubnetInfoSet → Result (Unit {0}) × State E.World
  after_look found =
      (elim found [ some n ↦ pure n | none ↦ new_subnet E sc c vpc ] >>= λ n.
      update_cluster (record_subnet E sc vpc n))
        (after_call E look_call s)

  looked :
      IsWanting
      → reconcile_subnet E sc s
        ≡ after_look (find_first (subnet_matches sc c) (reply_to E look_call s).body)
  unfolding reconcile_subnet with_cluster establish_subnet find_or_create_subnet ◌>>=◌
  looked w = rw (w.unset, w.has_vpc, request-ok E look_call s _ w.answered) refl

  none_found : IsWanting → find_first (subnet_matches sc c) (reply_to E look_call s).body ≡ none
  none_found wanting =
      find_first-none (subnet_matches sc c) (reply_to E look_call s).body
        (All-mono (reply_to E look_call s).body matches-other wanting.absent)

  -- The state with the new subnet in the cluster's status: its id, its name, its block of addresses
  -- and its VPC.
  abbrev pub with_subnet : VpcSubnetInfoSet → State E.World → State E.World
  with_subnet n t = record t {
    ucloud_cluster = record (t.ucloud_cluster) {
      status = record (t.ucloud_cluster.status) {
        network = record (t.ucloud_cluster.status.network) {
          subnet = record (t.ucloud_cluster.status.network.subnet) {
            cidr_block = n.subnet <> "/" <> n.netmask;
            subnet_name = n.subnet_name;
            subnet_id = n.subnet_id;
            vpc_id = vpc;
          };
        };
      };
    };
  }

  -- Say that the cluster's status names a VPC and no subnet, and that UCloud shows no subnet with the
  -- name or the id in question. If the block in the spec is an address, a slash and a mask, then
  -- `ReconcileSubnet` creates exactly one subnet, with that name, that address and the mask as a
  -- number, in that VPC, and the status has
  -- its id, its name, its block and its VPC.
  pub reconcile_subnet-creates :
      (address mask : String) (rest : List String) (wanting : IsWanting)
      → split c.spec.network.subnet.cidr_block b'/' ≡ address ∷ mask ∷ rest
      → (reply_to E (make_call address mask) (after_call E look_call s)).error ≡ none
      → reconcile_subnet E sc s ≡ (
        ok tt,
        with_subnet
            (record {
              subnet_name = subnet_name sc c;
              subnet = address;
              netmask = mask;
              subnet_id = (reply_to E (make_call address mask) (after_call E look_call s)).body;
            })
            (after_call E (make_call address mask) (after_call E look_call s)),
      )
  unfolding new_subnet create_subnet_at cidr_parts update_cluster ◌>>=◌
  reconcile_subnet-creates address mask rest wanting parts made =
      looked wanting
      ∙ ap after_look (none_found wanting)
      ∙ rw parts (rw (request-ok E (make_call address mask) (after_call E look_call s) _ made) refl)

  -- In the same situation, if the block in the spec has no slash, then `ReconcileSubnet` panics after
  -- it has looked for the subnet: nothing is created or recorded.
  pub reconcile_subnet-panics :
      (block : String) (wanting : IsWanting)
      → split c.spec.network.subnet.cidr_block b'/' ≡ block ∷ []
      → reconcile_subnet E sc s ≡ (panic "index out of range", after_call E look_call s)
  unfolding new_subnet cidr_parts ◌>>=◌
  reconcile_subnet-panics block wanting parts =
      looked wanting ∙ ap after_look (none_found wanting) ∙ rw parts refl
