-- ===== src/Service/Capu.antt =====
-- cloud/services/uk8s.go: the cluster and its hosts as the UK8S service knows them.
pub mod Emits
use cluster_api_provider_ucl.Prelude.{
  String, Bool, Option, none, some, List, [], ◌∷◌, is_empty, not, if◌then◌else◌,
}
use cluster_api_provider_ucl.Go.{ok, pure, wrapping, ◌>>=◌, ◌>>◌}
use cluster_api_provider_ucl.Api.Network.{Instance}
use cluster_api_provider_ucl.Api.Cluster.{UcloudCluster}
use cluster_api_provider_ucl.Api.Machine.{UcloudMachine}
use cluster_api_provider_ucl.Cloud.{
  Environment, Request, Response, no_response, CommonBase, create_capu_cluster, delete_capu_cluster,
  create_capu_host, delete_capu_host,
}
use cluster_api_provider_ucl.Scope.{
  ClusterScope, Op, MachineOp, MachineState, with_cluster, update_cluster, on_cluster,
}
use cluster_api_provider_ucl.Scope.Cluster
use cluster_api_provider_ucl.Scope.Machine
use cluster_api_provider_ucl.Scope.Machine.{MachineScope}
use cluster_api_provider_ucl.Service.Call.{first}
use cluster_api_provider_ucl.Service.Request.{do_request, common_base}

abbrev bastion_field : (Instance → String) → Option Instance → Option String
bastion_field f none = none
bastion_field f (some b) = some (f b)

module _ (E : Environment) (sc : ClusterScope) where
  send_create_cluster : UcloudCluster → Op E Unit
  send_create_cluster c = do
    base ← common_base E "CreateCAPUCluster" c
    pods ← first sc.cluster.pod_cidr_blocks
    services ← first sc.cluster.service_cidr_blocks
    let req = create_capu_cluster (record {
      base = base;
      vpc_id = some c.status.network.vpc.vpc_id;
      subnet_id = some c.status.network.subnet.subnet_id;
      pod_cidr = some pods;
      natgw_id = some c.status.network.nat.nat_gateway_id;
      service_cidr = some services;
      cluster_name = some c.meta.name;
      ulb_id = some c.status.network.ulb.load_balancer_id;
      fw_id = some c.status.network.firewall.firewall_id;
      node_cidr = some c.status.network.subnet.cidr_block;
      k8s_version = some c.spec.version;
      api_server =
          some
            (E.endpoint_text c.spec.control_plane_endpoint.host c.spec.control_plane_endpoint.port);
      bastion_id = bastion_field (λ b. b.instance_id) c.status.bastion;
      bastion_zone = bastion_field (λ b. b.zone) c.status.bastion;
    })
    res ← wrapping "create uk8s capu cluster failed" [] (do_request E sc req (no_response req))
    update_cluster (λ d. record d { status = record (d.status) { cluster_id = res.cluster_id } })

  unfoldable pub create_capu_cluster_for : Op E Unit
  unfolding send_create_cluster
  create_capu_cluster_for =
      with_cluster λ c. if is_empty c.status.cluster_id then send_create_cluster c else pure tt

  send_delete_cluster : UcloudCluster → Op E Unit
  send_delete_cluster c = do
    base ← common_base E "DeleteCAPUCluster" c
    let req = delete_capu_cluster (record { base = base; cluster_id = some c.status.cluster_id })
    wrapping "delete uk8s capu cluster failed" [] (do_request E sc req (no_response req))
    pure tt

  unfoldable pub delete_capu_cluster_for : Op E Unit
  unfolding send_delete_cluster
  delete_capu_cluster_for =
      with_cluster λ c. if is_empty c.status.cluster_id then pure tt else send_delete_cluster c

  send_create_host : MachineScope → UcloudMachine → UcloudCluster → Op E Unit
  send_create_host ms m c = do
    base ← common_base E "CreateCAPUHost" c
    let req = create_capu_host (record {
      base = record base { zone = some (Machine.get_zone m) };
      cluster_id = some c.status.cluster_id;
      instance_id = Machine.get_instance_id E m;
      host_type = some "uhost";
      role = some (if Machine.is_control_plane ms then "master" else "node");
    })
    wrapping "create uk8s capu host failed" [] (do_request E sc req (no_response req))
    pure tt

  -- `Status.ClusterId` of the machine is set to that of the cluster at the end.
  unfoldable pub record_host : MachineOp E Unit
  record_host s = (
    ok tt,
    record s {
      ucloud_machine = record (s.ucloud_machine) {
        status = record (s.ucloud_machine.status) {
          cluster_id = s.ucloud_cluster.status.cluster_id;
        };
      };
    },
  )

  unfoldable pub create_capu_host_for : MachineScope → MachineOp E Unit
  unfolding send_create_host record_host
  create_capu_host_for ms s =
      (if is_empty s.ucloud_machine.status.cluster_id
          then (on_cluster E (with_cluster (send_create_host ms s.ucloud_machine)) >>= λ _.
              record_host)
          else pure tt)
        s

  send_delete_host : UcloudMachine → UcloudCluster → Op E Unit
  send_delete_host m c = do
    base ← common_base E "DeleteCAPUHost" c
    let req = delete_capu_host (record {
      base = base;
      cluster_id = some c.status.cluster_id;
      instance_id = Machine.get_instance_id E m;
    })
    wrapping "delete uk8s capu host failed" [] (do_request E sc req (no_response req))
    pure tt

  unfoldable pub delete_capu_host_for : MachineOp E Unit
  unfolding send_delete_host
  delete_capu_host_for s = on_cluster E (with_cluster (send_delete_host s.ucloud_machine)) s
