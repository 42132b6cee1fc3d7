-- ===== src/Cloud/Actions.antt =====
-- The requests and answers of the actions that the SDK lacks: the structs of
-- cloud/services/ugroup.go, uk8s.go and ulb.go, which `doRequest` sends. A request embeds the SDK's
-- `request.CommonBase`, an answer its `response.CommonBase`.
use cluster_api_provider_ucl.Prelude.{ℕ, ℤ, pos, String, Option, List, []}

pub record CommonBase : Type 0 where
  pub action : String
  pub request_time : ℕ
  pub region : Option String
  pub zone : Option String
  pub project_id : Option String

pub record CommonResponse : Type 0 where
  pub ret_code : ℤ
  pub message : String

pub record ListBusinessGroupRequest : Type 0 where
  pub base : CommonBase

pub record BusinessGroupInfo : Type 0 where
  pub business_id : String
  pub business_name : String

pub record ListBusinessGroupResponse : Type 0 where
  pub base : CommonResponse
  pub infos : List BusinessGroupInfo

pub record DeleteBusinessGroupRequest : Type 0 where
  pub base : CommonBase
  pub business_id : Option String

pub record DeleteBusinessGroupResponse : Type 0 where
  pub base : CommonResponse

pub record CreateBusinessGroupRequest : Type 0 where
  pub base : CommonBase
  pub business_name : Option String

pub record CreateBusinessGroupResponse : Type 0 where
  pub base : CommonResponse
  pub business_id : String
  pub business_name : String

pub record SearchBusinessGroupResourceRequest : Type 0 where
  pub base : CommonBase
  pub business_id : Option String
  pub limit : Option String
  pub offset : Option String

pub record ResourceInfo : Type 0 where
  pub id : String
  pub resource_id : String
  pub region_id : String
  pub zone_id : String
  pub resource_type : ℤ
  pub resource_type_name : String

pub record SearchBusinessGroupResourceResponse : Type 0 where
  pub base : CommonResponse
  pub total_count : ℤ
  pub infos : List ResourceInfo

pub record CreateCapuClusterRequest : Type 0 where
  pub base : CommonBase
  pub vpc_id : Option String
  pub subnet_id : Option String
  pub pod_cidr : Option String
  pub natgw_id : Option String
  pub service_cidr : Option String
  pub cluster_name : Option String
  pub ulb_id : Option String
  pub fw_id : Option String
  pub node_cidr : Option String
  pub k8s_version : Option String
  pub api_server : Option String
  pub bastion_id : Option String
  pub bastion_zone : Option String

pub record CreateCapuClusterResponse : Type 0 where
  pub base : CommonResponse
  pub cluster_id : String

pub record DeleteCapuClusterRequest : Type 0 where
  pub base : CommonBase
  pub cluster_id : Option String

pub record DeleteCapuClusterResponse : Type 0 where
  pub base : CommonResponse

pub record CreateCapuHostRequest : Type 0 where
  pub base : CommonBase
  pub cluster_id : Option String
  pub instance_id : Option String
  pub host_type : Option String
  pub role : Option String

pub record CreateCapuHostResponse : Type 0 where
  pub base : CommonResponse

pub record DeleteCapuHostRequest : Type 0 where
  pub base : CommonBase
  pub cluster_id : Option String
  pub instance_id : Option String

pub record DeleteCapuHostResponse : Type 0 where
  pub base : CommonResponse

pub record CreateUlbRequestPlus : Type 0 where
  pub base : CommonBase
  pub business_id : Option String
  pub charge_type : Option String
  pub firewall_id : Option String
  pub inner_mode : Option String
  pub outer_mode : Option String
  pub remark : Option String
  pub subnet_id : Option String
  pub tag : Option String
  pub ulb_name : Option String
  pub vpc_id : Option String
  pub listen_type : Option String

-- The SDK's `ulb.CreateULBResponse`.
pub record CreateUlbResponse : Type 0 where
  pub base : CommonResponse
  pub ulb_id : String

-- The `request.Common` values that the program sends.
pub data Request : Type 0 where
  list_business_group : ListBusinessGroupRequest → Request
  create_business_group : CreateBusinessGroupRequest → Request
  delete_business_group : DeleteBusinessGroupRequest → Request
  search_business_group_resource : SearchBusinessGroupResourceRequest → Request
  create_capu_cluster : CreateCapuClusterRequest → Request
  delete_capu_cluster : DeleteCapuClusterRequest → Request
  create_capu_host : CreateCapuHostRequest → Request
  delete_capu_host : DeleteCapuHostRequest → Request
  create_ulb : CreateUlbRequestPlus → Request

abbrev pub Response : Request → Type 0
Response (list_business_group r) = ListBusinessGroupResponse
Response (create_business_group r) = CreateBusinessGroupResponse
Response (delete_business_group r) = DeleteBusinessGroupResponse
Response (search_business_group_resource r) = SearchBusinessGroupResourceResponse
Response (create_capu_cluster r) = CreateCapuClusterResponse
Response (delete_capu_cluster r) = DeleteCapuClusterResponse
Response (create_capu_host r) = CreateCapuHostResponse
Response (delete_capu_host r) = DeleteCapuHostResponse
Response (create_ulb r) = CreateUlbResponse

abbrev no_base : CommonResponse
no_base = record { ret_code = pos 0; message = "" }

-- The zero value with which a `var res …Response` starts.
abbrev pub no_response : (r : Request) → Response r
no_response (list_business_group r) = record { base = no_base; infos = [] }
no_response (create_business_group r) = record {
  base = no_base;
  business_id = "";
  business_name = "";
}
no_response (delete_business_group r) = record { base = no_base }
no_response (search_business_group_resource r) = record {
  base = no_base;
  total_count = pos 0;
  infos = [];
}
no_response (create_capu_cluster r) = record { base = no_base; cluster_id = "" }
no_response (delete_capu_cluster r) = record { base = no_base }
no_response (create_capu_host r) = record { base = no_base }
no_response (delete_capu_host r) = record { base = no_base }
no_response (create_ulb r) = record { base = no_base; ulb_id = "" }

abbrev pub response_base : (r : Request) → Response r → CommonResponse
response_base (list_business_group r) res = res.base
response_base (create_business_group r) res = res.base
response_base (delete_business_group r) res = res.base
response_base (search_business_group_resource r) res = res.base
response_base (create_capu_cluster r) res = res.base
response_base (delete_capu_cluster r) res = res.base
response_base (create_capu_host r) res = res.base
response_base (delete_capu_host r) res = res.base
response_base (create_ulb r) res = res.base
