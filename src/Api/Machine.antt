-- ===== src/Api/Machine.antt =====
-- api/v1alpha3/ucloudmachine_types.go and ucloudmachinetemplate_types.go, and what the program reads
-- of the Cluster API's `Machine`.
use cluster_api_provider_ucl.Prelude.{ℤ, String, Bool, Option, List}
use cluster_api_provider_ucl.Api.Cluster.{ObjectMeta}

abbrev pub machine_finalizer : String
machine_finalizer = "ucloudmachine.infrastructure.cluster.x-k8s.io"

pub record UcloudMachineSpec : Type 0 where
  pub instance_type : String
  pub cpu : ℤ
  pub memory : ℤ
  pub root_disk_size : ℤ
  pub data_disk_size : ℤ
  pub ssh_password : String
  pub provider_id : Option String
  pub image_id : Option String
  pub public_ip : Option Bool
  pub additional_network_tags : List String

-- The Cluster API's `MachineAddress`.
pub record MachineAddress : Type 0 where
  pub address_type : String
  pub address : String

pub record UcloudMachineStatus : Type 0 where
  pub ready : Bool
  pub zone : String
  pub instance_id : String
  pub cluster_id : String
  pub addresses : List MachineAddress
  pub instance_status : String
  pub failure_reason : Option String
  pub failure_message : Option String

pub record UcloudMachine : Type 0 where
  pub meta : ObjectMeta
  pub spec : UcloudMachineSpec
  pub status : UcloudMachineStatus

pub record UcloudMachineTemplateResource : Type 0 where
  pub spec : UcloudMachineSpec

pub record UcloudMachineTemplateSpec : Type 0 where
  pub template : UcloudMachineTemplateResource

pub record UcloudMachineTemplate : Type 0 where
  pub meta : ObjectMeta
  pub spec : UcloudMachineTemplateSpec

-- The Cluster API's `Machine`, as far as the program reads it. `is_control_plane` is what
-- `util.IsControlPlaneMachine` answers of it.
pub record Machine : Type 0 where
  pub meta : ObjectMeta
  pub is_control_plane : Bool
  pub failure_domain : Option String
  pub data_secret_name : Option String
  pub version : Option String
  pub infrastructure_ref_name : String
