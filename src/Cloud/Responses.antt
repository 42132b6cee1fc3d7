-- ===== src/Cloud/Responses.antt =====
-- The parts of the UCloud SDK's answers that the program reads.
use cluster_api_provider_ucl.Prelude.{ℤ, String, List}

pub record UhostIpSet : Type 0 where
  pub default : String
  pub ip_type : String
  pub ip : String

pub record UhostInstanceSet : Type 0 where
  pub zone : String
  pub uhost_id : String
  pub state : String
  pub name : String
  pub ip_set : List UhostIpSet

pub record VpcInfo : Type 0 where
  pub name : String
  pub network : List String
  pub vpc_id : String

pub record VpcSubnetInfoSet : Type 0 where
  pub subnet_name : String
  pub subnet : String
  pub netmask : String
  pub subnet_id : String

pub record NatGatewayIpSet : Type 0 where
  pub bandwidth : ℤ
  pub eip_id : String

pub record NatGatewaySubnetSet : Type 0 where
  pub subnetwork_id : String

pub record NatGatewayDataSet : Type 0 where
  pub firewall_id : String
  pub natgw_id : String
  pub natgw_name : String
  pub vpc_id : String
  pub ip_set : List NatGatewayIpSet
  pub subnet_set : List NatGatewaySubnetSet

pub record UlbIpSet : Type 0 where
  pub bandwidth : ℤ
  pub eip : String
  pub eip_id : String

pub record UlbBackendSet : Type 0 where
  pub backend_id : String
  pub resource_id : String

pub record UlbVserverSet : Type 0 where
  pub frontend_port : ℤ
  pub listen_type : String
  pub method : String
  pub monitor_type : String
  pub protocol : String
  pub vserver_id : String
  pub vserver_name : String
  pub backend_set : List UlbBackendSet

pub record UlbSet : Type 0 where
  pub bandwidth : ℤ
  pub name : String
  pub ulb_id : String
  pub ulb_type : String
  pub vpc_id : String
  pub ip_set : List UlbIpSet
  pub vserver_set : List UlbVserverSet

pub record UnetEipAddrSet : Type 0 where
  pub ip : String

pub record UnetAllocateEipSet : Type 0 where
  pub eip_id : String
  pub eip_addr : List UnetEipAddrSet

pub record FirewallDataSet : Type 0 where
  pub fw_id : String
  pub name : String
  pub fw_type : String
