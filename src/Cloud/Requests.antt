-- ===== src/Cloud/Requests.antt =====
-- The requests to the UCloud SDK, with the fields that the program sets. A pointer field that some
-- path leaves unset is an `Option`. The SDK itself is not part of the repository.
use cluster_api_provider_ucl.Prelude.{ℤ, String, Bool, Option, List}

pub record UhostDisk : Type 0 where
  pub size : ℤ
  pub disk_type : String
  pub is_boot : String
  pub backup_type : String

pub record EipParam : Type 0 where
  pub bandwidth : ℤ
  pub operator_name : String
  pub pay_mode : String

pub record DescribeUhostInstanceRequest : Type 0 where
  pub region : String
  pub project_id : String
  pub zone : Option String
  pub uhost_ids : List String
  pub tag : String
  pub subnet_id : Option String

pub record CreateUhostInstanceRequest : Type 0 where
  pub region : String
  pub project_id : String
  pub zone : String
  pub tag : String
  pub name : String
  pub charge_type : String
  pub quantity : ℤ
  pub vpc_id : String
  pub subnet_id : String
  pub image_id : String
  pub cpu : ℤ
  pub memory : ℤ
  pub disks : List UhostDisk
  pub machine_type : String
  pub minimal_cpu_platform : String
  pub network_interface : List EipParam
  pub login_mode : String
  pub password : String
  pub user_data : Option String

pub record PoweroffUhostInstanceRequest : Type 0 where
  pub region : String
  pub project_id : String
  pub zone : String
  pub uhost_id : String

pub record TerminateUhostInstanceRequest : Type 0 where
  pub region : String
  pub project_id : String
  pub zone : String
  pub uhost_id : String
  pub release_eip : Bool
  pub release_udisk : Bool

pub record DescribeVpcRequest : Type 0 where
  pub region : String
  pub project_id : String
  pub tag : String
  pub vpc_ids : List String

pub record CreateVpcRequest : Type 0 where
  pub region : String
  pub project_id : String
  pub name : String
  pub network : List String
  pub tag : String

pub record DeleteVpcRequest : Type 0 where
  pub region : String
  pub project_id : String
  pub vpc_id : String

pub record DescribeSubnetRequest : Type 0 where
  pub region : String
  pub project_id : String
  pub vpc_id : String
  pub tag : String
  pub subnet_id : Option String

pub record CreateSubnetRequest : Type 0 where
  pub region : String
  pub project_id : String
  pub subnet_name : String
  pub subnet : String
  pub netmask : ℤ
  pub vpc_id : String
  pub tag : String

pub record DeleteSubnetRequest : Type 0 where
  pub region : String
  pub project_id : String
  pub subnet_id : String

pub record DescribeNatgwRequest : Type 0 where
  pub region : String
  pub project_id : String
  pub natgw_ids : List String

pub record CreateNatgwRequest : Type 0 where
  pub region : String
  pub project_id : String
  pub tag : String
  pub natgw_name : String
  pub firewall_id : String
  pub vpc_id : String
  pub subnetwork_ids : List String
  pub eip_ids : List String

pub record DeleteNatgwRequest : Type 0 where
  pub region : String
  pub project_id : String
  pub natgw_id : String
  pub release_eip : Bool

pub record DescribeUlbRequest : Type 0 where
  pub region : String
  pub project_id : String
  pub vpc_id : String
  pub ulb_id : Option String

pub record CreateVserverRequest : Type 0 where
  pub region : String
  pub project_id : String
  pub ulb_id : String
  pub protocol : String
  pub monitor_type : String
  pub frontend_port : ℤ
  pub listen_type : String
  pub vserver_name : String

pub record DeleteUlbRequest : Type 0 where
  pub region : String
  pub project_id : String
  pub ulb_id : String
  pub release_eip : Bool

pub record DescribeVserverRequest : Type 0 where
  pub region : String
  pub project_id : String
  pub ulb_id : String
  pub vserver_id : String

pub record AllocateBackendRequest : Type 0 where
  pub region : String
  pub project_id : String
  pub ulb_id : String
  pub vserver_id : String
  pub resource_type : String
  pub resource_id : String
  pub port : ℤ

pub record ReleaseBackendRequest : Type 0 where
  pub region : String
  pub project_id : String
  pub ulb_id : String
  pub backend_id : String

pub record AllocateEipRequest : Type 0 where
  pub region : String
  pub project_id : String
  pub tag : String
  pub operator_name : String
  pub bandwidth : ℤ
  pub name : Option String

pub record ReleaseEipRequest : Type 0 where
  pub region : String
  pub project_id : String
  pub eip_id : String

pub record BindEipRequest : Type 0 where
  pub region : String
  pub project_id : String
  pub eip_id : String
  pub resource_id : String
  pub resource_type : String

pub record UnbindEipRequest : Type 0 where
  pub region : String
  pub project_id : String
  pub eip_id : String
  pub resource_id : String
  pub resource_type : String

pub record DescribeFirewallRequest : Type 0 where
  pub region : String
  pub project_id : String
  pub fw_id : Option String
