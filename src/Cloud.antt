-- ===== src/Cloud.antt =====
-- The environment of the controllers: the UCloud services, the Kubernetes API server, time and
-- chance, and the third-party functions that the program calls. All of it is one parameter.
mod Requests
mod Responses
mod Actions
pub use Requests.*
pub use Responses.*
pub use Actions.*
use cluster_api_provider_ucl.Prelude.{ℕ, ℤ, String, Bool, Option, List, ◌⊎◌}
use cluster_api_provider_ucl.Go.{Error}
use cluster_api_provider_ucl.Api.Cluster.{ObjectMeta, UcloudCluster, Cluster}
use cluster_api_provider_ucl.Api.Machine.{UcloudMachine, Machine}

-- One request to the SDK or to the API server.
pub data Call : Type 0 where
  describe_uhost_instance : DescribeUhostInstanceRequest → Call
  create_uhost_instance : CreateUhostInstanceRequest → Call
  poweroff_uhost_instance : PoweroffUhostInstanceRequest → Call
  terminate_uhost_instance : TerminateUhostInstanceRequest → Call
  describe_vpc : DescribeVpcRequest → Call
  create_vpc : CreateVpcRequest → Call
  delete_vpc : DeleteVpcRequest → Call
  describe_subnet : DescribeSubnetRequest → Call
  create_subnet : CreateSubnetRequest → Call
  delete_subnet : DeleteSubnetRequest → Call
  describe_natgw : DescribeNatgwRequest → Call
  create_natgw : CreateNatgwRequest → Call
  delete_natgw : DeleteNatgwRequest → Call
  describe_ulb : DescribeUlbRequest → Call
  create_vserver : CreateVserverRequest → Call
  delete_ulb : DeleteUlbRequest → Call
  describe_vserver : DescribeVserverRequest → Call
  allocate_backend : AllocateBackendRequest → Call
  release_backend : ReleaseBackendRequest → Call
  allocate_eip : AllocateEipRequest → Call
  release_eip : ReleaseEipRequest → Call
  bind_eip : BindEipRequest → Call
  unbind_eip : UnbindEipRequest → Call
  describe_firewall : DescribeFirewallRequest → Call
  patch_cluster : UcloudCluster → Call
  patch_machine : UcloudMachine → Call
  get_ucloud_cluster : String → String → Call
  get_ucloud_machine : String → String → Call
  get_secret : String → String → Call
  delete_machine : Machine → Call
  list_machines : String → String → Call
  get_owner_machine : ObjectMeta → Call
  get_owner_cluster : ObjectMeta → Call
  get_cluster_from_metadata : ObjectMeta → Call

-- What the answer to a call holds beside its return code.
abbrev pub Body : Call → Type 0
Body (describe_uhost_instance r) = List UhostInstanceSet
Body (create_uhost_instance r) = List String
Body (poweroff_uhost_instance r) = Unit {0}
Body (terminate_uhost_instance r) = Unit {0}
Body (describe_vpc r) = List VpcInfo
Body (create_vpc r) = String
Body (delete_vpc r) = Unit {0}
Body (describe_subnet r) = List VpcSubnetInfoSet
Body (create_subnet r) = String
Body (delete_subnet r) = Unit {0}
Body (describe_natgw r) = List NatGatewayDataSet
Body (create_natgw r) = String
Body (delete_natgw r) = Unit {0}
Body (describe_ulb r) = List UlbSet
Body (create_vserver r) = String
Body (delete_ulb r) = Unit {0}
Body (describe_vserver r) = List UlbVserverSet
Body (allocate_backend r) = Unit {0}
Body (release_backend r) = Unit {0}
Body (allocate_eip r) = List UnetAllocateEipSet
Body (release_eip r) = Unit {0}
Body (bind_eip r) = Unit {0}
Body (unbind_eip r) = Unit {0}
Body (describe_firewall r) = List FirewallDataSet
Body (patch_cluster x) = Unit {0}
Body (patch_machine x) = Unit {0}
Body (get_ucloud_cluster x y) = UcloudCluster
Body (get_ucloud_machine x y) = UcloudMachine
Body (get_secret x y) = List (String × String)
Body (delete_machine x) = Unit {0}
Body (list_machines x y) = List Machine
Body (get_owner_machine x) = Option Machine
Body (get_owner_cluster x) = Option Cluster
Body (get_cluster_from_metadata x) = Cluster

-- Go's pair of a response and an error; the response is there beside an error too.
pub record Reply (A : Type 0) : Type 0 where
  pub body : A
  pub ret_code : ℤ
  pub error : Option Error

pub record HttpRequest : Type 0 where
  pub url : String
  pub method : String
  pub timeout : ℕ
  pub query : String
  pub user_agent : String

-- The answer of the HTTP client: the body of the response, if there is one, and an error.
pub record HttpReply : Type 0 where
  pub body : Option String
  pub error : Option Error

-- The SDK's `ucloud.Config` and `auth.Credential`.
pub record Config : Type 0 where
  pub base_url : String
  pub timeout : ℕ
  pub user_agent : String

pub record Credential : Type 0 where
  pub private_key : String
  pub public_key : String

-- `World` is the state of all that is outside of the program. Times are in milliseconds.
pub record Environment : Type 1 where
  pub World : Type 0
  pub invoke : (c : Call) → World → Reply (Body c) × World
  pub send : HttpRequest → World → HttpReply × World
  pub now : World → ℕ
  pub sleep : ℕ → World → World
  pub intn : ℕ → World → ℕ × World
  -- k8s.io/apimachinery: `apierrors.IsNotFound`
  pub is_not_found : Error → Bool
  -- cluster-api: `noderefutil.NewProviderID(id)` with `ID()`, `none` where it fails, and
  -- `clusterutil.IsPaused(cluster, object)`
  pub parse_provider_id : String → Option String
  pub is_paused : Cluster → ObjectMeta → Bool
  -- cluster-api: `capierrors.UpdateMachineError` and the address types of a machine
  pub update_machine_error : String
  pub external_ip : String
  pub internal_ip : String
  -- controller-runtime: `AddFinalizer` and `RemoveFinalizer` of package controllerutil. The second
  -- takes the finalizer, the object's finalizers, and what an earlier `GetFinalizers` gave, and
  -- returns the object's finalizers and what that earlier slice reads afterwards.
  pub add_finalizer : String → List String → List String
  pub remove_finalizer : String → List String → List String → List String × List String
  -- the SDK: `request.ToQueryMap` with `BuildCredentialedQuery`, the retcode patcher with
  -- `json.Unmarshal`, and the tests on its errors
  pub to_query : Request → Error ⊎ (Credential → String)
  pub unmarshal : (r : Request) → String → Response r → Response r × Option Error
  pub status_error : Error → Option (ℤ × String)
  pub is_sdk_error : Error → Bool
  pub is_network_error : Error → Bool
  -- the SDK: the states of a host, `uhost.StateRunning` and the others
  pub state_running : String
  pub state_stopped : String
  pub state_initializing : String
  pub state_starting : String
  pub go_version : String
  pub sdk_version : String
  -- encodings: `base64.StdEncoding`, `json.Marshal` of a credential, `uuid.NewSHA1` in the
  -- namespace of the program, `%q` of a text, `%s` of a pointer to a text, and an endpoint's `String()`
  pub base64_decode : String → String ⊎ Error
  pub base64_encode : String → String
  pub marshal_credential : Credential → String ⊎ Error
  pub uuid_sha1 : String → String → String
  pub quote : String → String
  pub format_pointer : String → String
  pub endpoint_text : String → ℤ → String
