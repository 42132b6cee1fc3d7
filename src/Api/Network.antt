-- ===== src/Api/Network.antt =====
-- api/v1alpha3/types.go: the network's desired and observed state. Every field of each struct is
-- kept, in the source's order; a pointer is an `Option`, an `int` an integer `ℤ`.
use cluster_api_provider_ucl.Prelude.{String, Bool, List, ℤ, pos}

pub record SubnetSpec : Type 0 where
  pub subnet_id : String
  pub subnet_name : String
  pub cidr_block : String
  pub description : String

pub record VpcSpec : Type 0 where
  pub vpc_id : String
  pub vpc_name : String
  pub cidr_block : String
  pub description : String

pub record NatGatewaySpec : Type 0 where
  pub nat_gateway_id : String
  pub name : String
  pub description : String

pub record EipSpec : Type 0 where
  pub eip_id : String
  pub eip_name : String
  pub bandwidth : ℤ

pub record NatSpec : Type 0 where
  pub nat_gateway : NatGatewaySpec
  pub eip : EipSpec

pub record UlbSpec : Type 0 where
  pub load_balancer_id : String
  pub vserver_id : String
  pub load_balancer_name : String
  pub vserver_name : String
  pub eip : EipSpec

pub record FirewallRuleSpec : Type 0 where
  pub ip_protocol : String
  pub source_cidr_ip : String
  pub port_range : String
  pub description : String
  pub policy : String
  pub source_port_range : String
  pub dest_cidr_ip : String

pub record FirewallSpec : Type 0 where
  pub firewall_id : String
  pub firewall_name : String
  pub rules : List FirewallRuleSpec
  pub description : String

pub record NetworkSpec : Type 0 where
  pub vpc : VpcSpec
  pub subnet : SubnetSpec
  pub nat : NatSpec
  pub ulb : UlbSpec
  pub firewall : FirewallSpec

pub record Vpc : Type 0 where
  pub vpc_id : String
  pub status : String
  pub vpc_name : String
  pub creation_time : String
  pub cidr_block : String
  pub vrouter_id : String
  pub description : String
  pub is_default : Bool
  pub network_acl_num : String

pub record Subnet : Type 0 where
  pub subnet_id : String
  pub vpc_id : String
  pub status : String
  pub cidr_block : String
  pub zone_id : String
  pub available_ip_address_count : ℤ
  pub description : String
  pub subnet_name : String
  pub creation_time : String
  pub is_default : Bool
  pub network_acl_id : String

pub record Eip : Type 0 where
  pub eip_id : String
  pub eip_addr : String
  pub status : String
  pub bandwidth : ℤ
  pub charge_type : String
  pub eip_name : String
  pub description : String
  pub mode : String

pub record Firewall : Type 0 where
  pub firewall_id : String
  pub description : String
  pub firewall_name : String
  pub vpc_id : String
  pub creation_time : String
  pub firewall_type : String

pub record Nat : Type 0 where
  pub eip : Eip
  pub snat_entry_id : String
  pub firewall : Firewall
  pub nat_gateway_id : String
  pub name : String
  pub description : String
  pub vpc_id : String
  pub creation_time : String
  pub status : String
  pub snat_table_ids : List String

pub record Ulb : Type 0 where
  pub eip : Eip
  pub load_balancer_id : String
  pub load_balancer_name : String
  pub load_balancer_status : String
  pub address : String
  pub vpc_id : String
  pub network_type : String
  pub create_time : String
  pub vserver_id : String

pub record Network : Type 0 where
  pub vpc : Vpc
  pub subnet : Subnet
  pub ulb : Ulb
  pub nat : Nat
  pub firewall : Firewall

pub record Instance : Type 0 where
  pub instance_id : String
  pub private_ip : String
  pub public_ip : String
  pub instance_type : String
  pub zone : String
  pub name : String

pub record BastionSpec : Type 0 where
  pub ssh_password : String
  pub zone : String

pub record Group : Type 0 where
  pub group_name : String
  pub group_id : String

-- The zero values of Go for the structs that the program builds by a literal.
abbrev pub no_eip : Eip
no_eip = record {
  eip_id = "";
  eip_addr = "";
  status = "";
  bandwidth = pos 0;
  charge_type = "";
  eip_name = "";
  description = "";
  mode = "";
}

abbrev pub no_firewall : Firewall
no_firewall = record {
  firewall_id = "";
  description = "";
  firewall_name = "";
  vpc_id = "";
  creation_time = "";
  firewall_type = "";
}
