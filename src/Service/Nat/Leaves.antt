-- ===== src/Service/Nat/Leaves.antt =====
-- What `ReconcileNat` leaves behind when UCloud refuses the gateway, and what it makes again.
use cluster_api_provider_ucl.Prelude.{
  ◌≡◌, refl, ap, ◌∙◌, String, true, false, Option, none, some, List, [], ◌∷◌, is_empty, find_first,
  All,
}
use cluster_api_provider_ucl.Go.{Error, Result, ok, err, errorf_of, pure, ◌>>=◌}
use cluster_api_provider_ucl.Api.Cluster.{UcloudCluster}
use cluster_api_provider_ucl.Defaults.{eip_operator}
use cluster_api_provider_ucl.Cloud.{
  Environment, Call, NatGatewayDataSet, FirewallDataSet, UnetAllocateEipSet, UnetEipAddrSet,
  describe_natgw, create_natgw, describe_firewall, allocate_eip,
}
use cluster_api_provider_ucl.Scope.{State, with_cluster, update_cluster}
use cluster_api_provider_ucl.Scope.Calls.{reply_to, after_call, request-ok, request-err}
use cluster_api_provider_ucl.Scope.Cluster
use cluster_api_provider_ucl.Service.Call.{first}
use cluster_api_provider_ucl.Service.Subnet.{unless_empty}
use cluster_api_provider_ucl.Service.Firewall.{get_firewall}
use cluster_api_provider_ucl.Service.Eip.{create_eip, eip_bandwidth}
use cluster_api_provider_ucl.Service.Nat.{
  nat_matches, natgw_name, ids_of, create_nat, new_nat, find_or_create_nat, establish_nat,
  reconcile_nat, record_gateway, record_ip,
}

module _ (E : Environment) (s : State E.World) where
  abbrev c : UcloudCluster
  c = s.ucloud_cluster

  abbrev vpc : String
  vpc = c.status.network.vpc.vpc_id

  abbrev pub look_call : Call
  look_call = describe_natgw (record {
    region = Cluster.region c;
    project_id = Cluster.project_id c;
    natgw_ids = ids_of c.spec.network.nat.nat_gateway.nat_gateway_id;
  })

  abbrev pub firewall_call : Call
  firewall_call = describe_firewall (record {
    region = Cluster.region c;
    project_id = Cluster.project_id c;
    fw_id = unless_empty c.spec.network.firewall.firewall_id;
  })

  abbrev pub eip_call : Call
  eip_call = allocate_eip (record {
    region = Cluster.region c;
    project_id = Cluster.project_id c;
    tag = Cluster.group_name c;
    operator_name = eip_operator (Cluster.region c);
    bandwidth = eip_bandwidth c.spec.network.nat.eip;
    name = unless_empty c.spec.network.nat.eip.eip_name;
  })

  abbrev pub make_call : FirewallDataSet → UnetAllocateEipSet → Call
  make_call f eip = create_natgw (record {
    region = Cluster.region c;
    project_id = Cluster.project_id c;
    tag = Cluster.group_name c;
    natgw_name = natgw_name c;
    firewall_id = f.fw_id;
    vpc_id = vpc;
    subnetwork_ids = c.status.network.subnet.subnet_id ∷ [];
    eip_ids = eip.eip_id ∷ [];
  })

  -- The states after the look at the gateways, after that at the firewalls, and after the allocation.
  abbrev pub looked : State E.World
  looked = after_call E look_call s

  abbrev pub walled : State E.World
  walled = after_call E firewall_call looked

  abbrev pub addressed : State E.World
  addressed = after_call E eip_call walled

  -- The status has a VPC, a subnet and no gateway, UCloud answers when it is asked for gateways, it
  -- shows a firewall `f`, and it allocates the address `eip`.
  pub record IsReadyFor (f : FirewallDataSet) (eip : UnetAllocateEipSet) : Type 0 where
    pub unset : is_empty c.status.network.nat.nat_gateway_id ≡ true
    pub has_vpc : is_empty vpc ≡ false
    pub has_subnet : is_empty c.status.network.subnet.subnet_id ≡ false
    pub answered : (reply_to E look_call s).error ≡ none
    pub shown : (reply_to E firewall_call looked).error ≡ none
    pub walls : List FirewallDataSet
    pub firewall_is : (reply_to E firewall_call looked).body ≡ f ∷ walls
    pub allocated : (reply_to E eip_call walled).error ≡ none
    pub others : List UnetAllocateEipSet
    pub eip_is : (reply_to E eip_call walled).body ≡ eip ∷ others
    pub address : UnetEipAddrSet
    pub addresses : List UnetEipAddrSet
    pub address_is : eip.eip_addr ≡ address ∷ addresses

  abbrev after_look : Option NatGatewayDataSet → Result (Unit {0}) × State E.World
  after_look found =
      (elim found [ some g ↦ pure g | none ↦ new_nat E c vpc ] >>= λ g.
      update_cluster (record_gateway E g) >>= λ _.
      first g.ip_set >>= λ ip. update_cluster (record_ip E ip))
        looked

  searched :
      (f : FirewallDataSet) (eip : UnetAllocateEipSet)
      → IsReadyFor f eip
      → reconcile_nat E s
        ≡ after_look (find_first (nat_matches c vpc) (reply_to E look_call s).body)
  unfolding reconcile_nat with_cluster establish_nat find_or_create_nat ◌>>=◌
  searched f eip r = rw (r.unset, r.has_vpc, request-ok E look_call s _ r.answered) refl

  -- Say that `ReconcileNat` finds no gateway and gets an address, and that UCloud then refuses to
  -- create the gateway. The method fails after these four calls, without a call that releases the
  -- address, and the cluster's object is as it was.
  pub reconcile_nat-refused :
      (f : FirewallDataSet) (eip : UnetAllocateEipSet) (e : Error) (ready : IsReadyFor f eip)
      → find_first (nat_matches c vpc) (reply_to E look_call s).body ≡ none
      → (reply_to E (make_call f eip) addressed).error ≡ some e
      → reconcile_nat E s ≡ (
        err (errorf_of "create nat gw failed: %s" [] e),
        after_call E (make_call f eip) addressed,
      )
  unfolding new_nat create_nat get_firewall create_eip with_cluster first ◌>>=◌
  reconcile_nat-refused f eip e r absent refused =
      searched f eip r
      ∙ ap after_look absent
      ∙ rw (r.has_subnet, request-ok E firewall_call looked _ r.shown)
          (rw r.firewall_is (
            rw (request-ok E eip_call walled _ r.allocated) (
              rw r.eip_is (
                rw r.address_is
                  (rw (request-err E (make_call f eip) addressed _ e refused) refl)))))

  -- The state with a gateway of the id `id`, under the default or the given name, in the status.
  abbrev pub with_gateway :
      String → FirewallDataSet → UnetAllocateEipSet → State E.World → State E.World
  with_gateway id f eip t = record t {
    ucloud_cluster =
        record_ip E
          (record { bandwidth = eip_bandwidth c.spec.network.nat.eip; eip_id = eip.eip_id })
          (record_gateway E
            (record {
              firewall_id = f.fw_id;
              natgw_id = id;
              natgw_name = natgw_name c;
              vpc_id = vpc;
              ip_set = [];
              subnet_set = [];
            })
            t.ucloud_cluster);
  }

  -- No gateway that has an id and a name fits a spec that has neither.
  mismatch :
      (g : NatGatewayDataSet)
      → c.spec.network.nat.nat_gateway.nat_gateway_id ≡ ""
      → c.spec.network.nat.nat_gateway.name ≡ ""
      → is_empty g.natgw_id ≡ false
      → is_empty g.natgw_name ≡ false
      → nat_matches c vpc g ≡ false
  mismatch g i n p q = rw (i, n, p, q) refl

  unnamed :
      (gateways : List NatGatewayDataSet)
      → c.spec.network.nat.nat_gateway.nat_gateway_id ≡ ""
      → c.spec.network.nat.nat_gateway.name ≡ ""
      → All (λ g. (is_empty g.natgw_id ≡ false) × (is_empty g.natgw_name ≡ false)) gateways
      → find_first (nat_matches c vpc) gateways ≡ none
  unnamed [] i n all = refl
  unnamed (g ∷ gs) i n all = rw (mismatch g i n all.0.0 all.0.1) (unnamed gs i n all.1)

  -- Say that the spec names no gateway, neither by an id nor by a name, that the status has a VPC, a
  -- subnet and no gateway, and that the gateways which UCloud lists, those that this method made
  -- before among them, have ids and names. Then `ReconcileNat` takes none of them: with a firewall, a
  -- new address and the creation accepted it makes another gateway, and that is in the status.
  pub reconcile_nat-makes_another :
      (f : FirewallDataSet) (eip : UnetAllocateEipSet) (ready : IsReadyFor f eip)
      → c.spec.network.nat.nat_gateway.nat_gateway_id ≡ ""
      → c.spec.network.nat.nat_gateway.name ≡ ""
      → All
          (λ g. (is_empty g.natgw_id ≡ false) × (is_empty g.natgw_name ≡ false))
          (reply_to E look_call s).body
      → (reply_to E (make_call f eip) addressed).error ≡ none
      → reconcile_nat E s ≡ (
        ok tt,
        with_gateway
            (reply_to E (make_call f eip) addressed).body
            f
            eip
            (after_call E (make_call f eip) addressed),
      )
  unfolding new_nat create_nat get_firewall create_eip with_cluster update_cluster first ◌>>=◌
  reconcile_nat-makes_another f eip r no_id no_name named made =
      searched f eip r
      ∙ ap after_look (unnamed _ no_id no_name named)
      ∙ rw (r.has_subnet, request-ok E firewall_call looked _ r.shown)
          (rw r.firewall_is (
            rw (request-ok E eip_call walled _ r.allocated) (
              rw r.eip_is
                (rw r.address_is (rw (request-ok E (make_call f eip) addressed _ made) refl)))))
