-- ===== src/Tests/Samples.antt =====
-- A cluster, a machine and what UCloud says of them.
use cluster_api_provider_ucl.Prelude.{String, pos, true, false, none, some, List, [], ◌∷◌}
use cluster_api_provider_ucl.Api.Network.{Network, NetworkSpec, EipSpec, no_eip, no_firewall}
use cluster_api_provider_ucl.Api.Cluster.{ObjectMeta, UcloudCluster, Cluster}
use cluster_api_provider_ucl.Api.Machine.{UcloudMachine, Machine}
use cluster_api_provider_ucl.Cloud.{UhostInstanceSet, VpcInfo}
use cluster_api_provider_ucl.Scope.{ClusterScope, State, MachineState}
use cluster_api_provider_ucl.Scope.Machine.{MachineScope}

abbrev pub meta_of : String → List String → ObjectMeta
meta_of name marks = record {
  name = name;
  namespace = "default";
  cluster_name = "demo";
  uid = "u-1";
  creation_timestamp = "2020";
  deletion_timestamp = none;
  finalizers = marks;
  annotations = none;
}

abbrev eip_spec : EipSpec
eip_spec = record { eip_id = ""; eip_name = ""; bandwidth = pos 10 }

-- The spec names a VPC and a subnet of the user, and no NAT gateway.
abbrev network_spec : NetworkSpec
network_spec = record {
  vpc = record { vpc_id = "vpc-user"; vpc_name = ""; cidr_block = "10.0.0.0/16"; description = "" };
  subnet = record {
    subnet_id = "subnet-user";
    subnet_name = "";
    cidr_block = "10.0.1.0/24";
    description = "";
  };
  nat = record {
    nat_gateway = record { nat_gateway_id = ""; name = ""; description = "" };
    eip = eip_spec;
  };
  ulb = record {
    load_balancer_id = "";
    vserver_id = "";
    load_balancer_name = "";
    vserver_name = "";
    eip = eip_spec;
  };
  firewall = record { firewall_id = ""; firewall_name = ""; rules = []; description = "" };
}

-- The status of a network with these ids of the VPC, the subnet, the NAT gateway and the load balancer.
abbrev pub network_of : String → String → String → String → Network
network_of vpc subnet nat ulb = record {
  vpc = record {
    vpc_id = vpc;
    status = "";
    vpc_name = "";
    creation_time = "";
    cidr_block = "";
    vrouter_id = "";
    description = "";
    is_default = false;
    network_acl_num = "";
  };
  subnet = record {
    subnet_id = subnet;
    vpc_id = vpc;
    status = "";
    cidr_block = "";
    zone_id = "";
    available_ip_address_count = pos 0;
    description = "";
    subnet_name = "";
    creation_time = "";
    is_default = false;
    network_acl_id = "";
  };
  ulb = record {
    eip = no_eip;
    load_balancer_id = ulb;
    load_balancer_name = "";
    load_balancer_status = "";
    address = "";
    vpc_id = vpc;
    network_type = "";
    create_time = "";
    vserver_id = "";
  };
  nat = record {
    eip = no_eip;
    snat_entry_id = "";
    firewall = no_firewall;
    nat_gateway_id = nat;
    name = "";
    description = "";
    vpc_id = vpc;
    creation_time = "";
    status = "";
    snat_table_ids = [];
  };
  firewall = no_firewall;
}

abbrev pub cluster_of : List String → String → Network → UcloudCluster
cluster_of marks group network = record {
  meta = meta_of "demo" marks;
  spec = record {
    project_id = "org-1";
    region = "cn-bj2";
    version = "v1.17.4";
    control_plane_endpoint = record { host = ""; port = pos 0 };
    network = network_spec;
    bastion = record { ssh_password = "cGFzcw=="; zone = "" };
  };
  status = record {
    failure_domains = [];
    network = network;
    cluster_id = "";
    bastion = none;
    group = record { group_name = "capu-1"; group_id = group };
    ready = false;
  };
}

-- Nothing has been made yet.
abbrev pub new_cluster : UcloudCluster
new_cluster = cluster_of [] "" (network_of "" "" "" "")

-- All is there: the user's VPC and subnet, and the rest made by the provider.
abbrev pub whole_cluster : UcloudCluster
whole_cluster = cluster_of [] "bg-1" (network_of "vpc-user" "subnet-user" "nat-1" "ulb-1")

-- A machine has left its finalizer behind that of the cluster.
abbrev pub marked_cluster : UcloudCluster
marked_cluster =
    cluster_of ("ucloudcluster.infrastructure.cluster.x-k8s.io" ∷ "m0.ucloudmachine" ∷ []) "bg-1"
      (network_of "vpc-user" "subnet-user" "nat-1" "ulb-1")

abbrev pub capi_cluster : Cluster
capi_cluster = record {
  meta = meta_of "demo" [];
  paused = false;
  infrastructure_ref = some "demo";
  infrastructure_ready = true;
  api_server_port = none;
  pod_cidr_blocks = "192.168.0.0/16" ∷ [];
  service_cidr_blocks = "172.17.0.0/16" ∷ [];
}

abbrev pub cluster_scope : ClusterScope
cluster_scope = record {
  clients = record {
    config = some (record { base_url = "https://api.ucloud.cn"; timeout = 30; user_agent = "" });
    credential = some (record { private_key = "key"; public_key = "pub" });
  };
  cluster = capi_cluster;
}

abbrev pub machine : Machine
machine = record {
  meta = meta_of "m0" [];
  is_control_plane = true;
  failure_domain = some "cn-bj2-02";
  data_secret_name = some "m0-bootstrap";
  version = some "v1.17.4";
  infrastructure_ref_name = "m0";
}

abbrev pub machine_scope : MachineScope
machine_scope = record { cluster = capi_cluster; machine = machine }

abbrev pub ucloud_machine : UcloudMachine
ucloud_machine = record {
  meta = meta_of "m0" [];
  spec = record {
    instance_type = "";
    cpu = pos 4;
    memory = pos 0;
    root_disk_size = pos 0;
    data_disk_size = pos 0;
    ssh_password = "cGFzcw==";
    provider_id = none;
    image_id = none;
    public_ip = none;
    additional_network_tags = [];
  };
  status = record {
    ready = false;
    zone = "";
    instance_id = "";
    cluster_id = "";
    addresses = [];
    instance_status = "";
    failure_reason = none;
    failure_message = none;
  };
}

abbrev pub host_in : String → UhostInstanceSet
host_in state = record {
  zone = "cn-bj2-02";
  uhost_id = "uhost-1";
  state = state;
  name = "default-m0";
  ip_set =
      record { default = "true"; ip_type = "Private"; ip = "10.0.1.7" }
      ∷ record { default = ""; ip_type = "Bgp"; ip = "106.75.0.1" }
      ∷ [];
}

abbrev pub user_vpc : VpcInfo
user_vpc = record { name = "mine"; network = "10.0.0.0/16" ∷ []; vpc_id = "vpc-user" }

abbrev pub at_zero : {W : Type 0} → UcloudCluster → W → State W
at_zero c w = record { ucloud_cluster = c; world = w; events = [] }

abbrev pub machine_at : {W : Type 0} → UcloudCluster → W → MachineState W
machine_at c w = record { base = at_zero c w; ucloud_machine = ucloud_machine }
