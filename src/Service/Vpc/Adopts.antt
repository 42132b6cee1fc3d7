-- ===== src/Service/Vpc/Adopts.antt =====
-- Which VPC `ReconcileVPC` takes.
use cluster_api_provider_ucl.Prelude.{
  ◌≡◌, refl, ap, ◌∙◌, String, true, Option, none, some, List, [], ◌∷◌, ◌++◌, All, All-mono, arith,
  false, ◌⊎◌, eq_iff, is_empty, find_first, find_first-append, find_first-none,
}
use cluster_api_provider_ucl.Go.{Result, ok, pure, ◌>>=◌}
use cluster_api_provider_ucl.Api.Cluster.{UcloudCluster}
use cluster_api_provider_ucl.Cloud.{Environment, Call, VpcInfo, describe_vpc, create_vpc}
use cluster_api_provider_ucl.Scope.{ClusterScope, State, with_cluster, update_cluster}
use cluster_api_provider_ucl.Scope.Calls.{reply_to, after_call, request-ok}
use cluster_api_provider_ucl.Scope.Cluster
use cluster_api_provider_ucl.Service.Call.{first}
use cluster_api_provider_ucl.Service.Vpc.{
  vpc_name, vpc_matches, ids_of, record_vpc, new_vpc, reconcile_vpc,
}

module _ (E : Environment) (sc : ClusterScope) (s : State E.World) where
  abbrev c : UcloudCluster
  c = s.ucloud_cluster

  abbrev pub search_call : Call
  search_call = describe_vpc (record {
    region = Cluster.region c;
    project_id = Cluster.project_id c;
    tag = Cluster.group_name c;
    vpc_ids = ids_of c.spec.network.vpc.vpc_id;
  })

  abbrev pub create_call : Call
  create_call = create_vpc (record {
    region = Cluster.region c;
    project_id = Cluster.project_id c;
    name = vpc_name sc c;
    network = c.spec.network.vpc.cidr_block ∷ [];
    tag = Cluster.group_name c;
  })

  -- The state with a VPC's name, id and block of addresses in the cluster's status.
  abbrev pub with_vpc : VpcInfo → String → State E.World → State E.World
  with_vpc v cidr t = record t {
    ucloud_cluster = record (t.ucloud_cluster) {
      status = record (t.ucloud_cluster.status) {
        network = record (t.ucloud_cluster.status.network) {
          vpc = record (t.ucloud_cluster.status.network.vpc) {
            cidr_block = cidr;
            vpc_name = v.name;
            vpc_id = v.vpc_id;
          };
        };
      };
    };
  }

  -- A VPC with the name that the VPC of this cluster is to have, or with the id in its spec.
  abbrev pub IsFor : VpcInfo → Type 0
  IsFor v = (v.name ≡ vpc_name sc c) ⊎ (v.vpc_id ≡ c.spec.network.vpc.vpc_id)

  -- What follows the search, by the VPC that it found.
  abbrev after_search : Option VpcInfo → Result (Unit {0}) × State E.World
  after_search found =
      (elim found [ some v ↦ pure v | none ↦ new_vpc E sc c ] >>= λ v.
      first v.network >>= λ cidr. update_cluster (record_vpc v cidr))
        (after_call E search_call s)

  searched :
      is_empty c.status.network.vpc.vpc_id ≡ true
      → (reply_to E search_call s).error ≡ none
      → reconcile_vpc E sc s
        ≡ after_search (find_first (vpc_matches sc c) (reply_to E search_call s).body)
  unfolding reconcile_vpc with_cluster ◌>>=◌
  searched unset answered = rw (unset, request-ok E search_call s _ answered) refl

  matches-IsFor : (v : VpcInfo) → IsFor v → vpc_matches sc c v ≡ true
  matches-IsFor v h =
      ground (arith, eq_iff v.name (vpc_name sc c), eq_iff v.vpc_id c.spec.network.vpc.vpc_id)

  matches-other : (v : VpcInfo) → ¬ IsFor v → vpc_matches sc c v ≡ false
  matches-other v h =
      ground (arith, eq_iff v.name (vpc_name sc c), eq_iff v.vpc_id c.spec.network.vpc.vpc_id)

  -- If the status has no VPC id and UCloud describes VPCs of which some have the name that the VPC of
  -- this cluster is to have, or the id in its spec, then `ReconcileVPC` takes the first of these: it
  -- creates none, and the status has that VPC's name, id and first block of addresses. The VPC that is
  -- taken has a block of addresses.
  pub reconcile_vpc-adopts :
      (others : List VpcInfo) (v : VpcInfo) (rest : List VpcInfo) (cidr : String)
      (cidrs : List String)
      → is_empty c.status.network.vpc.vpc_id ≡ true
      → (reply_to E search_call s).error ≡ none
      → (reply_to E search_call s).body ≡ others ++ v ∷ rest
      → All (λ o. ¬ IsFor o) others
      → IsFor v
      → v.network ≡ cidr ∷ cidrs
      → reconcile_vpc E sc s ≡ (ok tt, with_vpc v cidr (after_call E search_call s))
  unfolding update_cluster first ◌>>=◌
  reconcile_vpc-adopts others v rest cidr cidrs unset answered described before named blocks =
      searched unset answered
      ∙ ap (λ vpcs. after_search (find_first (vpc_matches sc c) vpcs)) described
      ∙ ap after_search (
          find_first-append (vpc_matches sc c) others v rest (All-mono others matches-other before)
            (matches-IsFor v named))
      ∙ rw blocks refl

  -- If the status has no VPC id and UCloud describes no VPC with the name or the id in question, and
  -- creates one when asked, then `ReconcileVPC` creates exactly one VPC, with that name, the block of
  -- addresses in the spec and the group's tag, and the status has its name, its id and its block.
  pub reconcile_vpc-creates :
      is_empty c.status.network.vpc.vpc_id ≡ true
      → (reply_to E search_call s).error ≡ none
      → All (λ o. ¬ IsFor o) (reply_to E search_call s).body
      → (reply_to E create_call (after_call E search_call s)).error ≡ none
      → reconcile_vpc E sc s ≡ (
        ok tt,
        with_vpc
            (record {
              name = vpc_name sc c;
              network = c.spec.network.vpc.cidr_block ∷ [];
              vpc_id = (reply_to E create_call (after_call E search_call s)).body;
            })
            c.spec.network.vpc.cidr_block
            (after_call E create_call (after_call E search_call s)),
      )
  unfolding new_vpc update_cluster first ◌>>=◌
  reconcile_vpc-creates unset answered absent made =
      searched unset answered
      ∙ ap after_search (
          find_first-none (vpc_matches sc c) (reply_to E search_call s).body
            (All-mono (reply_to E search_call s).body matches-other absent))
      ∙ rw (request-ok E create_call (after_call E search_call s) _ made) refl
