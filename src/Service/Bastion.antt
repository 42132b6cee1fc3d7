-- ===== src/Service/Bastion.antt =====
-- cloud/services/uhost.go: `CreateBastionInstance`, `getPrivateIP` and `getPublicIP`.
pub mod Emits
use cluster_api_provider_ucl.Prelude.{
  pos, String, ◌<>◌, Bool, ◌&&◌, Option, none, some, List, [], ◌∷◌, is_empty, find_first,
  if◌then◌else◌, ◌==◌,
}
use cluster_api_provider_ucl.Prelude.Text.{same_lower}
use cluster_api_provider_ucl.Go.{errorf, wrap, pure, fail, ◌>>=◌}
use cluster_api_provider_ucl.Api.Network.{Instance}
use cluster_api_provider_ucl.Api.Cluster.{UcloudCluster}
use cluster_api_provider_ucl.Cloud.{
  Environment, UhostInstanceSet, UhostIpSet, CreateUhostInstanceRequest, describe_uhost_instance,
  create_uhost_instance,
}
use cluster_api_provider_ucl.Defaults.{default_uhost_root_disk_size, region_image, eip_operator}
use cluster_api_provider_ucl.Scope.{ClusterScope, Op, request, with_cluster, update_cluster}
use cluster_api_provider_ucl.Scope.Cluster
use cluster_api_provider_ucl.Service.Call.{first}
use cluster_api_provider_ucl.Service.Instance.{choose_zone, password}

abbrev ip_text : Option UhostIpSet → String
ip_text none = ""
ip_text (some i) = i.ip

abbrev is_private : UhostIpSet → Bool
is_private i = i.default == "true" && i.ip_type == "Private"

unfoldable pub get_private_ip : UhostInstanceSet → String
get_private_ip host = ip_text (find_first is_private host.ip_set)

unfoldable pub get_public_ip : String → UhostInstanceSet → String
get_public_ip region host =
    ip_text (find_first (λ i. same_lower i.ip_type (eip_operator region)) host.ip_set)

abbrev pub bastion_name : UcloudCluster → String
bastion_name c = c.meta.namespace <> "-" <> c.meta.name <> "-bastion"

abbrev bastion_info : UcloudCluster → UhostInstanceSet → Instance
bastion_info c host = record {
  instance_id = host.uhost_id;
  private_ip = get_private_ip host;
  public_ip = get_public_ip (Cluster.region c) host;
  instance_type = "uhost";
  zone = host.zone;
  name = host.name;
}

abbrev set_bastion : Instance → UcloudCluster → UcloudCluster
set_bastion b c = record c { status = record (c.status) { bastion = some b } }

abbrev bastion_request : UcloudCluster → String → String → String → CreateUhostInstanceRequest
bastion_request c zone image_id pass = record {
  region = Cluster.region c;
  project_id = Cluster.project_id c;
  zone = zone;
  tag = Cluster.group_name c;
  name = bastion_name c;
  charge_type = "Month";
  quantity = pos 1;
  vpc_id = c.status.network.vpc.vpc_id;
  subnet_id = c.status.network.subnet.subnet_id;
  image_id = image_id;
  cpu = pos 2;
  memory = pos 4096;
  disks =
      record {
        size = default_uhost_root_disk_size;
        disk_type = "CLOUD_SSD";
        is_boot = "true";
        backup_type = "NONE";
      }
      ∷ [];
  machine_type = "N";
  minimal_cpu_platform = "Intel/Auto";
  network_interface =
      record {
        bandwidth = pos 1;
        operator_name = eip_operator (Cluster.region c);
        pay_mode = "Bandwidth";
      }
      ∷ [];
  login_mode = "Password";
  password = pass;
  user_data = none;
}

module _ (E : Environment) (sc : ClusterScope) where
  describe_bastion :
      UcloudCluster → CreateUhostInstanceRequest → List String → Op E UhostInstanceSet
  describe_bastion c req ids = do
    hosts ←
        request E (λ e. wrap e "describe uhost failed" [])
          (describe_uhost_instance (record {
            region = req.region;
            project_id = req.project_id;
            zone = some req.zone;
            uhost_ids = ids;
            tag = Cluster.group_name c;
            subnet_id = none;
          }))
    first hosts

  start_bastion : UcloudCluster → String → String → Op E Unit
  unfolding describe_bastion
  start_bastion c zone image_id = do
    pass ← password E sc c.spec.bastion.ssh_password
    let req = bastion_request c zone image_id pass
    ids ← request E (λ e. wrap e "create uhost failed" []) (create_uhost_instance req)
    host ← describe_bastion c req ids
    update_cluster (set_bastion (bastion_info c host))

  new_bastion : UcloudCluster → Op E Unit
  unfolding start_bastion
  new_bastion c = do
    zone ← choose_zone E (Cluster.region c) c.spec.bastion.zone
    let image_id = region_image (Cluster.region c) zone
    if is_empty image_id
        then fail (errorf "can not get image id for region %s" (Cluster.region c ∷ []))
        else start_bastion c zone image_id

  -- The request for the check names the subnet and no zone.
  ensure_bastion : UcloudCluster → Op E Unit
  unfolding new_bastion
  ensure_bastion c = do
    hosts ←
        request E (λ e. wrap e "failed to describe instance" [])
          (describe_uhost_instance (record {
            region = Cluster.region c;
            project_id = Cluster.project_id c;
            zone = none;
            uhost_ids = [];
            tag = Cluster.group_name c;
            subnet_id = some c.status.network.subnet.subnet_id;
          }))
    elim (find_first (λ h. h.name == bastion_name c) hosts) [
      | some _ ↦ pure tt
      | none ↦ new_bastion c
    ]

  unfoldable pub unless_there : Option Instance → Op E Unit → Op E Unit
  unless_there (some _) m = pure tt
  unless_there none m = m

  unfoldable pub create_bastion_instance : Op E Unit
  unfolding ensure_bastion unless_there
  create_bastion_instance = with_cluster λ c.
      if is_empty c.spec.bastion.ssh_password
      then pure tt
      else unless_there c.status.bastion (ensure_bastion c)
