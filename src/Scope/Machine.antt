-- ===== src/Scope/Machine.antt =====
-- cloud/scope/machine.go: how a machine scope is made, its getters and setters, the bootstrap data,
-- and how it persists the machine.
use cluster_api_provider_ucl.Prelude.{
  String, Bool, true, false, Option, none, some, List, [], ◌∷◌, lookup, if◌then◌else◌, ◌==◌,
}
use cluster_api_provider_ucl.Go.{Error, Result, ok, err, errorf, wrap, fail, pure, ◌>>=◌}
use cluster_api_provider_ucl.Api.Cluster.{UcloudCluster, Cluster}
use cluster_api_provider_ucl.Api.Machine.{UcloudMachine, Machine, MachineAddress}
use cluster_api_provider_ucl.Cloud.{Environment, patch_machine, get_secret}
use cluster_api_provider_ucl.Scope.{MachineOp, request, on_cluster}

-- What a machine scope only reads.
pub record MachineScope : Type 0 where
  pub cluster : Cluster
  pub machine : Machine

-- `MachineScopeParams` without its logger; `client` tells whether there is one.
pub record MachineScopeParams : Type 0 where
  pub client : Bool
  pub cluster : Option Cluster
  pub machine : Option Machine
  pub ucloud_cluster : Option UcloudCluster
  pub ucloud_machine : Option UcloudMachine

abbrev with_helper :
    Option Error → MachineScope × UcloudMachine → Result (MachineScope × UcloudMachine)
with_helper none s = ok s
with_helper (some e) s = err (wrap e "failed to init patch helper" [])

-- The nil checks in the order of the source.
unfoldable pub new_machine_scope :
    (UcloudMachine → Option Error) → MachineScopeParams → Result (MachineScope × UcloudMachine)
new_machine_scope helper_error p =
    if p.client
    then elim p.machine [
      | none ↦ err (errorf "machine is required when creating a MachineScope" [])
      | some machine ↦ elim p.cluster [
        | none ↦ err (errorf "cluster is required when creating a MachineScope" [])
        | some cluster ↦ elim p.ucloud_cluster [
          | none ↦ err (errorf "ucloud cluster is required when creating a MachineScope" [])
          | some _ ↦ elim p.ucloud_machine [
            | none ↦ err (errorf "ucloud machine is required when creating a MachineScope" [])
            | some ucloud_machine ↦
                with_helper (helper_error ucloud_machine)
                  (record { cluster = cluster; machine = machine }, ucloud_machine)
          ]
        ]
      ]
    ]
    else err (errorf "client is required when creating a MachineScope" [])

abbrev pub region : UcloudCluster → String
region c = c.spec.region

abbrev pub zone : MachineScope → UcloudMachine → String
zone ms m = elim ms.machine.failure_domain [ none ↦ m.status.zone | some z ↦ z ]

abbrev pub name : UcloudMachine → String
name m = m.meta.name

abbrev pub namespace : UcloudMachine → String
namespace m = m.meta.namespace

abbrev pub is_control_plane : MachineScope → Bool
is_control_plane ms = ms.machine.is_control_plane

abbrev pub role : MachineScope → String
role ms = if ms.machine.is_control_plane then "control-plane" else "node"

abbrev pub get_provider_id : UcloudMachine → String
get_provider_id m = elim m.spec.provider_id [ some id ↦ id | none ↦ "" ]

abbrev pub set_provider_id : String → UcloudMachine → UcloudMachine
set_provider_id v m = record m { spec = record (m.spec) { provider_id = some v } }

abbrev pub get_instance_status : UcloudMachine → String
get_instance_status m = m.status.instance_status

abbrev pub set_instance_status : String → UcloudMachine → UcloudMachine
set_instance_status v m = record m { status = record (m.status) { instance_status = v } }

abbrev pub set_ready : UcloudMachine → UcloudMachine
set_ready m = record m { status = record (m.status) { ready = true } }

abbrev pub set_not_ready : UcloudMachine → UcloudMachine
set_not_ready m = record m { status = record (m.status) { ready = false } }

abbrev pub set_zone : String → UcloudMachine → UcloudMachine
set_zone v m = record m { status = record (m.status) { zone = v } }

abbrev pub get_zone : UcloudMachine → String
get_zone m = m.status.zone

-- The source takes an error and stores its text.
abbrev pub set_failure_message : String → UcloudMachine → UcloudMachine
set_failure_message v m = record m { status = record (m.status) { failure_message = some v } }

abbrev pub set_failure_reason : String → UcloudMachine → UcloudMachine
set_failure_reason v m = record m { status = record (m.status) { failure_reason = some v } }

abbrev pub set_addresses : List MachineAddress → UcloudMachine → UcloudMachine
set_addresses v m = record m { status = record (m.status) { addresses = v } }

-- A write to a Go map, as an association list.
abbrev put : String → String → List (String × String) → List (String × String)
put k v [] = (k, v) ∷ []
put k v ((j, w) ∷ m) = if j == k then (k, v) ∷ m else (j, w) ∷ put k v m

abbrev entries : Option (List (String × String)) → List (String × String)
entries none = []
entries (some m) = m

abbrev pub set_annotation : String → String → UcloudMachine → UcloudMachine
set_annotation key value m = record m {
  meta = record (m.meta) { annotations = some (put key value (entries m.meta.annotations)) };
}

module _ (E : Environment) where
  abbrev pub get_instance_id : UcloudMachine → Option String
  get_instance_id m = E.parse_provider_id (get_provider_id m)

  read_secret : UcloudMachine → String → MachineOp E String
  read_secret m secret_name = do
    secret ← on_cluster E (
        request E
          (λ e.
            wrap e "failed to retrieve bootstrap data secret for UCloudMachine %s/%s"
              (namespace m ∷ name m ∷ []))
          (get_secret (namespace m) secret_name))
    elim (lookup "value" secret) [
      | none ↦ fail (errorf "error retrieving bootstrap data: secret value key is missing" [])
      | some value ↦ pure value
    ]

  unfoldable pub get_bootstrap_data : MachineScope → MachineOp E String
  unfolding read_secret
  get_bootstrap_data ms s = elim ms.machine.data_secret_name [
    | none ↦ (
      err (
          errorf "error retrieving bootstrap data: linked Machine's bootstrap.dataSecretName is nil"
            []),
      s,
    )
    | some secret_name ↦ read_secret s.ucloud_machine secret_name s
  ]

  unfoldable pub patch_object : MachineOp E Unit
  patch_object s = on_cluster E (request E (λ e. e) (patch_machine s.ucloud_machine)) s

  unfoldable pub close : MachineOp E Unit
  close = patch_object
