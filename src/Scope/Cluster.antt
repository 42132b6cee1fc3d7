-- ===== src/Scope/Cluster.antt =====
-- cloud/scope/cluster.go and clients.go: how a cluster scope is made, what it answers, and how it
-- persists the cluster.
use cluster_api_provider_ucl.Prelude.{
  ℤ, pos, String, ◌<>◌, Option, none, some, List, [], ◌∷◌, is_empty, not, if◌then◌else◌,
}
use cluster_api_provider_ucl.Go.{Error, Result, ok, err, errorf, wrap}
use cluster_api_provider_ucl.Api.Network.{SubnetSpec, Network}
use cluster_api_provider_ucl.Api.Cluster.{UcloudCluster, Cluster}
use cluster_api_provider_ucl.Cloud.{Environment, Config, Credential, patch_cluster}
use cluster_api_provider_ucl.Scope.{UcloudClients, ClusterScope, Op, request}

-- `ClusterScopeParams`, whose pointers may be nil. The logger and the client are left out.
pub record ClusterScopeParams : Type 0 where
  pub clients : UcloudClients
  pub cluster : Option Cluster
  pub ucloud_cluster : Option UcloudCluster

-- `loadDefaultConfig` takes the SDK's default, `getCredentialFromEnv` the values of the process's
-- environment variables.
pub record Defaults : Type 0 where
  pub default_config : Config
  pub environ : String → String

abbrev get_credential_from_env : Defaults → Credential
get_credential_from_env d = record {
  private_key = d.environ "UCLOUD_ACCESS_PRIKEY";
  public_key = d.environ "UCLOUD_ACCESS_PUBKEY";
}

abbrev or_some {ℓ} : {A : Type ℓ} → Option A → A → Option A
or_some none a = some a
or_some (some b) a = some b

abbrev with_helper :
    Option Error → ClusterScope × UcloudCluster → Result (ClusterScope × UcloudCluster)
with_helper none s = ok s
with_helper (some e) s = err (wrap e "failed to init patch helper" [])

-- `helper_error` is the error of `patch.NewHelper`, if it has one. The scope comes with the object
-- that it points to.
unfoldable pub new_cluster_scope :
    Defaults
    → (UcloudCluster → Option Error)
    → ClusterScopeParams
    → Result (ClusterScope × UcloudCluster)
new_cluster_scope d helper_error params = elim params.cluster [
  | none ↦ err (errorf "failed to generate new scope from nil Cluster" [])
  | some cluster ↦ elim params.ucloud_cluster [
    | none ↦ err (errorf "failed to generate new scope from nil UCloudCluster" [])
    | some ucloud_cluster ↦ with_helper (helper_error ucloud_cluster) (
      record {
        clients = record {
          config = or_some params.clients.config d.default_config;
          credential = or_some params.clients.credential (get_credential_from_env d);
        };
        cluster = cluster;
      },
      ucloud_cluster,
    )
  ]
]

abbrev pub project_id : UcloudCluster → String
project_id c = c.spec.project_id

abbrev pub region : UcloudCluster → String
region c = c.spec.region

abbrev pub group_name : UcloudCluster → String
group_name c = c.status.group.group_name

abbrev pub network : UcloudCluster → Network
network c = c.status.network

abbrev pub subnet : UcloudCluster → SubnetSpec
subnet c = c.spec.network.subnet

abbrev pub vpc_name : UcloudCluster → String
vpc_name c =
    if not (is_empty c.spec.network.vpc.vpc_name) then c.spec.network.vpc.vpc_name else "default"

abbrev pub name : ClusterScope → String
name s = s.cluster.meta.name

abbrev pub namespace : ClusterScope → String
namespace s = s.cluster.meta.namespace

-- The conversion of an `int32` to `int64` keeps the value.
abbrev pub load_balancer_frontend_port : ClusterScope → ℤ
load_balancer_frontend_port s = elim s.cluster.api_server_port [ some p ↦ p | none ↦ pos 6443 ]

abbrev pub load_balancer_backend_port : ClusterScope → ℤ
load_balancer_backend_port s = pos 6443

abbrev pub control_plane_config_map_name : ClusterScope → String
control_plane_config_map_name s = s.cluster.meta.uid <> "-controlplane"

-- The labels that `client.MatchingLabels` is given, with the key that the Cluster API names.
abbrev pub list_options_label_selector : String → ClusterScope → List (String × String)
list_options_label_selector cluster_label_name s = (cluster_label_name, s.cluster.meta.name) ∷ []

module _ (E : Environment) where
  -- `PatchObject` persists the object as it is now.
  unfoldable pub patch_object : Op E Unit
  patch_object s = request E (λ e. e) (patch_cluster s.ucloud_cluster) s

  unfoldable pub close : Op E Unit
  close = patch_object
