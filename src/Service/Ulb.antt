-- ===== src/Service/Ulb.antt =====
-- cloud/services/ulb.go: the load balancer in front of the API servers. Its backends are in
-- `Service.Backend`.
pub mod Emits
pub mod Formatted
use cluster_api_provider_ucl.Prelude.{
  pos, String, ◌<>◌, Bool, true, not, ◌||◌, ◌&&◌, Option, none, some, List, [], ◌∷◌, is_empty,
  if◌then◌else◌, ◌==◌, find_first,
}
use cluster_api_provider_ucl.Go.{
  Error, errorf, errorf_of, Result, ok, err, panic, pure, fail, Exec, ◌>>=◌, ◌>>◌,
}
use cluster_api_provider_ucl.Api.Network.{Eip, UlbSpec}
use cluster_api_provider_ucl.Api.Cluster.{UcloudCluster}
use cluster_api_provider_ucl.Cloud.{
  Environment, UlbSet, UlbIpSet, UlbVserverSet, describe_ulb, create_vserver,
  delete_ulb as delete_ulb_call, Request, Response, no_response, create_ulb, CommonBase,
}
use cluster_api_provider_ucl.Scope.{ClusterScope, Op, request, with_cluster, update_cluster}
use cluster_api_provider_ucl.Scope.Cluster
use cluster_api_provider_ucl.Service.Call.{request_but, first, set_network}
use cluster_api_provider_ucl.Service.Request.{do_request, common_base}
use cluster_api_provider_ucl.Service.Subnet.{unless_empty}
use cluster_api_provider_ucl.Service.Eip.{create_eip, bind_eip}

-- The test of the loop over `ulbs.DataSet`.
abbrev pub ulb_matches : UcloudCluster → String → UlbSet → Bool
ulb_matches c vpc_id u =
    (u.name == c.spec.network.ulb.load_balancer_name
      || u.ulb_id == c.spec.network.ulb.load_balancer_id)
    && u.vpc_id == vpc_id

abbrev pub ulb_name : UcloudCluster → String
ulb_name c =
    if is_empty c.spec.network.ulb.load_balancer_name
    then "ulb-for-" <> c.meta.cluster_name
    else c.spec.network.ulb.load_balancer_name

abbrev vserver_name : UcloudCluster → String
vserver_name c =
    if is_empty c.spec.network.ulb.vserver_name
    then "k8s-api-server"
    else c.spec.network.ulb.vserver_name

-- `if err != nil { return errors.Errorf(format, err.Error()) }`.
unfoldable pub formatted {ℓ} : {S A : Type ℓ} → String → Exec S A → Exec S A
formatted format m s = elim (m s).0 [
  | ok a ↦ (ok a, (m s).1)
  | err e ↦ (err (errorf_of format [] e), (m s).1)
  | panic why ↦ (panic why, (m s).1)
]

module _ (E : Environment) (sc : ClusterScope) where
  send_create_ulb : UcloudCluster → String → Op E String
  send_create_ulb c vpc_id = do
    base ← common_base E "CreateULB" c
    let req = create_ulb (record {
      base = base;
      business_id = none;
      charge_type = none;
      firewall_id = none;
      inner_mode = none;
      outer_mode = none;
      remark = none;
      subnet_id = none;
      tag = some (Cluster.group_name c);
      ulb_name = some (ulb_name c);
      vpc_id = some vpc_id;
      listen_type = some "RequestProxy";
    })
    res ← formatted "create ulb failed: %s" (do_request E sc req (no_response req))
    pure res.ulb_id

  send_create_vserver : UcloudCluster → String → Op E String
  send_create_vserver c ulb_id = request E (errorf_of "create vserver failed: %s" []) (
      create_vserver (record {
        region = Cluster.region c;
        project_id = Cluster.project_id c;
        ulb_id = ulb_id;
        protocol = "TCP";
        monitor_type = "Port";
        frontend_port = pos 6443;
        listen_type = "RequestProxy";
        vserver_name = vserver_name c;
      }))

  abbrev made_ulb : UcloudCluster → String → Eip → String → String → UlbSet
  made_ulb c vpc_id eip ulb_id vserver_id = record {
    bandwidth = eip.bandwidth;
    name = ulb_name c;
    ulb_id = ulb_id;
    ulb_type = "OuterMode";
    vpc_id = vpc_id;
    ip_set = record { bandwidth = eip.bandwidth; eip = eip.eip_addr; eip_id = eip.eip_id } ∷ [];
    vserver_set =
        record {
          frontend_port = pos 6443;
          listen_type = "PacketsTransmit";
          method = "Roundrobin";
          monitor_type = "Port";
          protocol = "TCP";
          vserver_id = vserver_id;
          vserver_name = vserver_name c;
          backend_set = [];
        }
        ∷ [];
  }

  new_ulb : UcloudCluster → String → Op E UlbSet
  unfolding send_create_ulb send_create_vserver
  new_ulb c vpc_id = do
    ulb_id ← send_create_ulb c vpc_id
    eip ← create_eip E c.spec.network.ulb.eip
    bind_eip E eip.eip_id ulb_id "ulb"
    vserver_id ← send_create_vserver c ulb_id
    pure (made_ulb c vpc_id eip ulb_id vserver_id)

  find_or_create_ulb : UcloudCluster → String → Op E UlbSet
  unfolding new_ulb
  find_or_create_ulb c vpc_id = do
    ulbs ← request E (errorf_of "describe ulb failed: %s" []) (
        describe_ulb (record {
          region = Cluster.region c;
          project_id = Cluster.project_id c;
          vpc_id = vpc_id;
          ulb_id = unless_empty c.spec.network.ulb.load_balancer_id;
        }))
    elim (find_first (ulb_matches c vpc_id) ulbs) [ some u ↦ pure u | none ↦ new_ulb c vpc_id ]

  abbrev record_ulb : UlbSet → UcloudCluster → UcloudCluster
  record_ulb u = set_network (λ n. record n {
    ulb = record (n.ulb) {
      load_balancer_id = u.ulb_id;
      load_balancer_name = u.name;
      vpc_id = u.vpc_id;
    };
  })

  abbrev record_vserver : UlbVserverSet → UcloudCluster → UcloudCluster
  record_vserver v =
      set_network (λ n. record n { ulb = record (n.ulb) { vserver_id = v.vserver_id } })

  abbrev record_ip : UlbIpSet → UcloudCluster → UcloudCluster
  record_ip ip = set_network (λ n. record n {
    ulb = record (n.ulb) {
      eip = record (n.ulb.eip) { eip_id = ip.eip_id; eip_addr = ip.eip; bandwidth = ip.bandwidth };
    };
  })

  -- What is written before `VServerSet[0]` or `IPSet[0]` panics stays written.
  establish_ulb : UcloudCluster → String → Op E Unit
  unfolding find_or_create_ulb
  establish_ulb c vpc_id = do
    u ← find_or_create_ulb c vpc_id
    update_cluster (record_ulb u)
    v ← first u.vserver_set
    update_cluster (record_vserver v)
    ip ← first u.ip_set
    update_cluster (record_ip ip)

  unfoldable pub reconcile_ulb : Op E Unit
  unfolding establish_ulb
  reconcile_ulb = with_cluster λ c.
      if not (is_empty c.status.network.ulb.load_balancer_id)
      then pure tt
      else if is_empty c.status.network.vpc.vpc_id
      then fail (errorf "vpc is not created" [])
      else establish_ulb c c.status.network.vpc.vpc_id

module _ (E : Environment) where
  -- The lower-case `deleteULB`, which `CleanResourceInGroup` calls too.
  unfoldable pub delete_ulb_by_id : String → Op E Unit
  delete_ulb_by_id ulb_id = with_cluster λ c.
      request_but E (pos 63059) (errorf_of "delete ulb %s failed: %s" (ulb_id ∷ [])) (
        delete_ulb_call (record {
          region = Cluster.region c;
          project_id = Cluster.project_id c;
          ulb_id = ulb_id;
          release_eip = true;
        }))

  unfoldable pub delete_ulb : Op E Unit
  delete_ulb = with_cluster λ c.
      let id = c.status.network.ulb.load_balancer_id in
      if is_empty id
      then pure tt
      else if c.spec.network.ulb.load_balancer_id == id
      then pure tt
      else delete_ulb_by_id id
