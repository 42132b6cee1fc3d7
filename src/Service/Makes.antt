-- ===== src/Service/Makes.antt =====
-- What the operations that make the cluster's network send and write.
use cluster_api_provider_ucl.Prelude.{String, not, List, [], ◌∷◌, is_empty, find_first}
use cluster_api_provider_ucl.Go.Keeps.{
  Keeps, Keeps-pure, Keeps-fail, Keeps-crash, Keeps-if, Keeps-bind, Keeps-wrapping, Keeps-option,
  Keeps-list,
}
use cluster_api_provider_ucl.Api.Network.{Network, EipSpec, Group}
use cluster_api_provider_ucl.Service.Ignores.{
  IgnoresGroup, IgnoresVpc, IgnoresSubnet, IgnoresNat, IgnoresUlb,
}
use cluster_api_provider_ucl.Api.Cluster.{UcloudCluster}
use cluster_api_provider_ucl.Cloud.{
  Environment, DescribeVpcRequest, CreateVpcRequest, DescribeSubnetRequest, CreateSubnetRequest,
  DescribeNatgwRequest, CreateNatgwRequest, DescribeUlbRequest, CreateVserverRequest,
  AllocateEipRequest, BindEipRequest, DescribeFirewallRequest, describe_vpc, create_vpc,
  describe_subnet, create_subnet, describe_natgw, create_natgw, describe_ulb, create_vserver,
  allocate_eip, bind_eip as bind_eip_call, describe_firewall, list_business_group,
  create_business_group, create_ulb, ListBusinessGroupRequest, CreateBusinessGroupRequest,
  CreateUlbRequestPlus,
}
use cluster_api_provider_ucl.Scope.{ClusterScope, Event, called, posted, Op}
use cluster_api_provider_ucl.Service.Emits.{
  Emits, Keeps-with_cluster, Keeps-update_cluster, Keeps-first, Keeps-request,
}
use cluster_api_provider_ucl.Service.Request.Emits.{Keeps-do_request, Keeps-common_base}
use cluster_api_provider_ucl.Service.Group.{reconcile_ugroup}
use cluster_api_provider_ucl.Service.Vpc.{reconcile_vpc}
use cluster_api_provider_ucl.Service.Subnet.{reconcile_subnet, cidr_parts}
use cluster_api_provider_ucl.Service.Firewall.{get_firewall}
use cluster_api_provider_ucl.Service.Eip.{create_eip, bind_eip}
use cluster_api_provider_ucl.Service.Nat.{reconcile_nat}
use cluster_api_provider_ucl.Service.Ulb.Formatted.{Keeps-formatted}
use cluster_api_provider_ucl.Service.Ulb.{reconcile_ulb}

-- `Q` allows what makes a network.
pub record AllowsNetwork (Q : Event → Type 0) : Type 0 where
  pub lists_groups : (r : ListBusinessGroupRequest) → Q (posted (list_business_group r))
  pub makes_group : (r : CreateBusinessGroupRequest) → Q (posted (create_business_group r))
  pub reads_vpc : (r : DescribeVpcRequest) → Q (called (describe_vpc r))
  pub makes_vpc : (r : CreateVpcRequest) → Q (called (create_vpc r))
  pub reads_subnet : (r : DescribeSubnetRequest) → Q (called (describe_subnet r))
  pub makes_subnet : (r : CreateSubnetRequest) → Q (called (create_subnet r))
  pub reads_natgw : (r : DescribeNatgwRequest) → Q (called (describe_natgw r))
  pub makes_natgw : (r : CreateNatgwRequest) → Q (called (create_natgw r))
  pub reads_firewall : (r : DescribeFirewallRequest) → Q (called (describe_firewall r))
  pub makes_eip : (r : AllocateEipRequest) → Q (called (allocate_eip r))
  pub binds_eip : (r : BindEipRequest) → Q (called (bind_eip_call r))
  pub reads_ulb : (r : DescribeUlbRequest) → Q (called (describe_ulb r))
  pub makes_ulb : (r : CreateUlbRequestPlus) → Q (posted (create_ulb r))
  pub makes_vserver : (r : CreateVserverRequest) → Q (called (create_vserver r))

-- `I` reads neither the network nor the group in the status.
pub record IgnoresNetwork (I : UcloudCluster → Type 0) : Type 0 where
  pub network_free :
      (n : Network) (c : UcloudCluster)
      → I c
      → I (record c { status = record (c.status) { network = n } })
  pub group_free :
      (g : Group) (c : UcloudCluster)
      → I c
      → I (record c { status = record (c.status) { group = g } })

module _ (E : Environment) {I : UcloudCluster → Type 0} {Q : Event → Type 0}
    (may : AllowsNetwork Q) where
  pub Keeps-create_eip : (spec : EipSpec) → Keeps (Emits I Q) (create_eip E spec)
  unfolding create_eip
  Keeps-create_eip spec = Keeps-bind _ _ (Keeps-with_cluster _ (λ c i. Keeps-pure c)) (λ c.
      Keeps-bind _ _ (Keeps-request E _ (allocate_eip _) (may.makes_eip _)) (λ set.
        Keeps-bind _ _ (Keeps-first set)
          (λ new. Keeps-bind _ _ (Keeps-first new.eip_addr) (λ address. Keeps-pure _))))

  pub Keeps-bind_eip : (id resource kind : String) → Keeps (Emits I Q) (bind_eip E id resource kind)
  unfolding bind_eip
  Keeps-bind_eip id resource kind =
      Keeps-with_cluster _ (λ c i. Keeps-request E _ (bind_eip_call _) (may.binds_eip _))

  pub Keeps-get_firewall : (id : String) → Keeps (Emits I Q) (get_firewall E id)
  unfolding get_firewall
  Keeps-get_firewall id = Keeps-bind _ _ (Keeps-with_cluster _ (λ c i. Keeps-pure c)) (λ c.
      Keeps-bind _ _ (Keeps-request E _ (describe_firewall _) (may.reads_firewall _))
        (λ walls. Keeps-list walls _ _ (λ f fs. Keeps-pure _) (Keeps-fail _)))

module _ (E : Environment) (sc : ClusterScope) {I : UcloudCluster → Type 0} {Q : Event → Type 0}
    (may : AllowsNetwork Q) where
  pub Keeps-reconcile_ugroup : IgnoresGroup I → Keeps (Emits I Q) (reconcile_ugroup E sc)
  unfolding reconcile_ugroup
  Keeps-reconcile_ugroup free = Keeps-with_cluster _ (λ c i.
      Keeps-if (is_empty c.status.group.group_id) _ _
        (λ _.
          Keeps-bind _ _
            (Keeps-bind _ _ (Keeps-common_base E _ c) (λ base.
              Keeps-bind _ _
                (Keeps-wrapping _ _ _
                  (Keeps-do_request E sc (list_business_group _) _ (may.lists_groups _)))
                (λ res. Keeps-option (find_first _ res.infos) _ _ Keeps-pure (
                  Keeps-bind _ _ (Keeps-common_base E _ c) (λ base'.
                    Keeps-bind _ _
                      (Keeps-wrapping _ _ _
                        (Keeps-do_request E sc (create_business_group _) _ (may.makes_group _)))
                      (λ _. Keeps-pure _))))))
            (λ g. Keeps-update_cluster _ (λ d. free _ d)))
        (λ _. Keeps-pure tt))

  pub Keeps-reconcile_vpc : IgnoresVpc I → Keeps (Emits I Q) (reconcile_vpc E sc)
  unfolding reconcile_vpc
  Keeps-reconcile_vpc free = Keeps-with_cluster _ (λ c i.
      Keeps-if (is_empty c.status.network.vpc.vpc_id) _ _
        (λ _.
          Keeps-bind _ _
            (Keeps-bind _ _ (Keeps-request E _ (describe_vpc _) (may.reads_vpc _)) (λ vpcs.
              Keeps-option (find_first _ vpcs) _ _ Keeps-pure (
                Keeps-bind _ _ (Keeps-request E _ (create_vpc _) (may.makes_vpc _))
                  (λ id. Keeps-pure _))))
            (λ v.
              Keeps-bind _ _ (Keeps-first v.network)
                (λ cidr. Keeps-update_cluster _ (λ d. free _ d))))
        (λ _. Keeps-pure tt))

  Keeps-cidr_parts :
      {A : Type 0} (pieces : List String) (found : String → String → Op E A) (missing : Op E A)
      → ((a m : String) → Keeps (Emits I Q) (found a m))
      → Keeps (Emits I Q) missing
      → Keeps (Emits I Q) (cidr_parts pieces found missing)
  unfolding cidr_parts
  Keeps-cidr_parts [] found missing k n = n
  Keeps-cidr_parts (a ∷ []) found missing k n = n
  Keeps-cidr_parts (a ∷ m ∷ rest) found missing k n = k a m

  pub Keeps-reconcile_subnet : IgnoresSubnet I → Keeps (Emits I Q) (reconcile_subnet E sc)
  unfolding reconcile_subnet
  Keeps-reconcile_subnet free = Keeps-with_cluster _ (λ c i.
      Keeps-if (not (is_empty c.status.network.subnet.subnet_id)) _ _ (λ _. Keeps-pure tt)
        (λ _.
          Keeps-if (is_empty c.status.network.vpc.vpc_id) _ _ (λ _. Keeps-fail _)
            (λ _.
              Keeps-bind _ _
                (Keeps-bind _ _ (Keeps-request E _ (describe_subnet _) (may.reads_subnet _))
                  (λ subnets. Keeps-option (find_first _ subnets) _ _ Keeps-pure (
                    Keeps-cidr_parts _ _ _
                      (λ a m.
                        Keeps-bind _ _ (Keeps-request E _ (create_subnet _) (may.makes_subnet _))
                          (λ id. Keeps-pure _))
                      (Keeps-crash _))))
                (λ found. Keeps-update_cluster _ (λ d. free _ d)))))

  pub Keeps-reconcile_nat : IgnoresNat I → Keeps (Emits I Q) (reconcile_nat E)
  unfolding reconcile_nat
  Keeps-reconcile_nat free = Keeps-with_cluster _ (λ c i.
      Keeps-if (not (is_empty c.status.network.nat.nat_gateway_id)) _ _ (λ _. Keeps-pure tt)
        (λ _.
          Keeps-if (is_empty c.status.network.vpc.vpc_id) _ _ (λ _. Keeps-fail _)
            (λ _.
              Keeps-bind _ _
                (Keeps-bind _ _ (Keeps-request E _ (describe_natgw _) (may.reads_natgw _))
                  (λ gateways. Keeps-option (find_first _ gateways) _ _ Keeps-pure (
                    Keeps-if (is_empty c.status.network.subnet.subnet_id) _ _ (λ _. Keeps-fail _)
                      (λ _. Keeps-bind _ _ (Keeps-get_firewall E may _) (λ firewall.
                        Keeps-bind _ _ (Keeps-create_eip E may _) (λ eip.
                          Keeps-bind _ _ (Keeps-request E _ (create_natgw _) (may.makes_natgw _))
                            (λ id. Keeps-pure _)))))))
                (λ g. Keeps-bind _ _ (Keeps-update_cluster _ (λ d. free _ _ d)) (λ _.
                  Keeps-bind _ _ (Keeps-first g.ip_set)
                    (λ ip. Keeps-update_cluster _ (λ d. free _ _ d)))))))

  pub Keeps-reconcile_ulb : IgnoresUlb I → Keeps (Emits I Q) (reconcile_ulb E sc)
  unfolding reconcile_ulb
  Keeps-reconcile_ulb free = Keeps-with_cluster _ (λ c i.
      Keeps-if (not (is_empty c.status.network.ulb.load_balancer_id)) _ _ (λ _. Keeps-pure tt)
        (λ _.
          Keeps-if (is_empty c.status.network.vpc.vpc_id) _ _ (λ _. Keeps-fail _)
            (λ _.
              Keeps-bind _ _
                (Keeps-bind _ _ (Keeps-request E _ (describe_ulb _) (may.reads_ulb _)) (λ ulbs.
                  Keeps-option (find_first _ ulbs) _ _ Keeps-pure (
                    Keeps-bind _ _
                      (Keeps-bind _ _ (Keeps-common_base E _ c) (λ base.
                        Keeps-bind _ _
                          (Keeps-formatted _ _
                            (Keeps-do_request E sc (create_ulb _) _ (may.makes_ulb _)))
                          (λ res. Keeps-pure res.ulb_id)))
                      (λ ulb_id. Keeps-bind _ _ (Keeps-create_eip E may _) (λ eip.
                        Keeps-bind _ _ (Keeps-bind_eip E may _ _ _) (λ _.
                          Keeps-bind _ _
                            (Keeps-request E _ (create_vserver _) (may.makes_vserver _))
                            (λ id. Keeps-pure _)))))))
                (λ u. Keeps-bind _ _ (Keeps-update_cluster _ (λ d. free _ d)) (λ _.
                  Keeps-bind _ _ (Keeps-first u.vserver_set) (λ v.
                    Keeps-bind _ _ (Keeps-update_cluster _ (λ d. free _ d)) (λ _.
                      Keeps-bind _ _ (Keeps-first u.ip_set)
                        (λ ip. Keeps-update_cluster _ (λ d. free _ d)))))))))
