-- ===== src/Service/Nat.antt =====
-- cloud/services/nat.go
pub mod Leaves
use cluster_api_provider_ucl.Prelude.{
  pos, String, ◌<>◌, Bool, not, ◌||◌, ◌&&◌, none, some, List, [], ◌∷◌, is_empty, if◌then◌else◌,
  ◌==◌, find_first,
}
use cluster_api_provider_ucl.Go.{errorf, errorf_of, pure, fail, ◌>>=◌, ◌>>◌}
use cluster_api_provider_ucl.Api.Cluster.{UcloudCluster}
use cluster_api_provider_ucl.Cloud.{
  Environment, NatGatewayDataSet, NatGatewayIpSet, describe_natgw, create_natgw, delete_natgw,
}
use cluster_api_provider_ucl.Scope.{Op, request, with_cluster, update_cluster}
use cluster_api_provider_ucl.Scope.Cluster
use cluster_api_provider_ucl.Service.Call.{request_but, first, set_network}
use cluster_api_provider_ucl.Service.Firewall.{get_firewall}
use cluster_api_provider_ucl.Service.Eip.{create_eip}

-- The test of the loop over `natGWs.DataSet`.
abbrev pub nat_matches : UcloudCluster → String → NatGatewayDataSet → Bool
nat_matches c vpc_id g =
    (g.natgw_id == c.spec.network.nat.nat_gateway.nat_gateway_id
      || g.natgw_name == c.spec.network.nat.nat_gateway.name)
    && g.vpc_id == vpc_id

abbrev pub natgw_name : UcloudCluster → String
natgw_name c =
    if is_empty c.spec.network.nat.nat_gateway.name
    then "natgw-for-" <> c.meta.name
    else c.spec.network.nat.nat_gateway.name

abbrev ids_of : String → List String
ids_of id = if is_empty id then [] else id ∷ []

module _ (E : Environment) where
  create_nat : UcloudCluster → String → String → Op E NatGatewayDataSet
  create_nat c vpc_id subnet_id = do
    firewall ← get_firewall E c.spec.network.firewall.firewall_id
    eip ← create_eip E c.spec.network.nat.eip
    id ← request E (errorf_of "create nat gw failed: %s" []) (
        create_natgw (record {
          region = Cluster.region c;
          project_id = Cluster.project_id c;
          tag = Cluster.group_name c;
          natgw_name = natgw_name c;
          firewall_id = firewall.firewall_id;
          vpc_id = vpc_id;
          subnetwork_ids = subnet_id ∷ [];
          eip_ids = eip.eip_id ∷ [];
        }))
    pure (record {
      firewall_id = firewall.firewall_id;
      natgw_id = id;
      natgw_name = natgw_name c;
      vpc_id = vpc_id;
      ip_set = record { bandwidth = eip.bandwidth; eip_id = eip.eip_id } ∷ [];
      subnet_set = record { subnetwork_id = subnet_id } ∷ [];
    })

  new_nat : UcloudCluster → String → Op E NatGatewayDataSet
  unfolding create_nat
  new_nat c vpc_id =
      if is_empty c.status.network.subnet.subnet_id
      then fail (errorf "subnet is not created" [])
      else create_nat c vpc_id c.status.network.subnet.subnet_id

  find_or_create_nat : UcloudCluster → String → Op E NatGatewayDataSet
  unfolding new_nat
  find_or_create_nat c vpc_id = do
    gateways ← request E (errorf_of "describe nat gateway failed: %s" []) (
        describe_natgw (record {
          region = Cluster.region c;
          project_id = Cluster.project_id c;
          natgw_ids = ids_of c.spec.network.nat.nat_gateway.nat_gateway_id;
        }))
    elim (find_first (nat_matches c vpc_id) gateways) [ some g ↦ pure g | none ↦ new_nat c vpc_id ]

  abbrev record_gateway : NatGatewayDataSet → UcloudCluster → UcloudCluster
  record_gateway g = set_network (λ n. record n {
    firewall = record (n.firewall) { firewall_id = g.firewall_id };
    nat = record (n.nat) {
      nat_gateway_id = g.natgw_id;
      name = g.natgw_name;
      vpc_id = g.vpc_id;
      firewall = record (n.nat.firewall) { firewall_id = g.firewall_id };
    };
  })

  abbrev record_ip : NatGatewayIpSet → UcloudCluster → UcloudCluster
  record_ip ip = set_network (λ n. record n {
    nat = record (n.nat) {
      eip = record (n.nat.eip) { eip_id = ip.eip_id; bandwidth = ip.bandwidth };
    };
  })

  -- The fields before `IPSet[0]` are written before that index can panic.
  establish_nat : UcloudCluster → String → Op E Unit
  unfolding find_or_create_nat
  establish_nat c vpc_id = do
    g ← find_or_create_nat c vpc_id
    update_cluster (record_gateway g)
    ip ← first g.ip_set
    update_cluster (record_ip ip)

  unfoldable pub reconcile_nat : Op E Unit
  unfolding establish_nat
  reconcile_nat = with_cluster λ c.
      if not (is_empty c.status.network.nat.nat_gateway_id)
      then pure tt
      else if is_empty c.status.network.vpc.vpc_id
      then fail (errorf "vpc is not created" [])
      else establish_nat c c.status.network.vpc.vpc_id

  unfoldable pub delete_nat : Op E Unit
  delete_nat = with_cluster λ c.
      let id = c.status.network.nat.nat_gateway_id in
      if is_empty id
      then pure tt
      else if c.spec.network.nat.nat_gateway.nat_gateway_id == id
      then pure tt
      else request_but E (pos 54002) (errorf_of "delete natgateway %s failed: %s" (id ∷ [])) (
          delete_natgw (record {
            region = Cluster.region c;
            project_id = Cluster.project_id c;
            natgw_id = id;
            release_eip = Bool.true;
          }))
