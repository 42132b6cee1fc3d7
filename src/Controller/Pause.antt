-- ===== src/Controller/Pause.antt =====
-- controllers/helpers.go, and the predicates of both `SetupWithManager` on events of a `Cluster`.
-- `is_paused` of the environment is the Cluster API's `IsPaused`.
use cluster_api_provider_ucl.Prelude.{Bool, false, not, ◌&&◌, Option, none, some, []}
use cluster_api_provider_ucl.Api.Cluster.{ObjectMeta, Cluster}
use cluster_api_provider_ucl.Cloud.{Environment}

-- `&clusterv1.Cluster{}`.
abbrev pub zero_cluster : Cluster
zero_cluster = record {
  meta = record {
    name = "";
    namespace = "";
    cluster_name = "";
    uid = "";
    creation_timestamp = "";
    deletion_timestamp = none;
    finalizers = [];
    annotations = none;
  };
  paused = false;
  infrastructure_ref = none;
  infrastructure_ready = false;
  api_server_port = none;
  pod_cidr_blocks = [];
  service_cidr_blocks = [];
}

-- An event of the controller runtime, with the objects that the predicates read.
pub data WatchEvent (A : Type 0) : Type 0 where
  create : A → WatchEvent A
  update : A → A → WatchEvent A
  delete : A → WatchEvent A

module _ (E : Environment) where
  unfoldable pub is_paused : Option Cluster → ObjectMeta → Bool
  is_paused none v = E.is_paused zero_cluster v
  is_paused (some cluster) v = E.is_paused cluster v

  unfoldable pub pause_predicates : WatchEvent ObjectMeta → Bool
  pause_predicates (update old new) = not (is_paused none new)
  pause_predicates (create v) = not (is_paused none v)
  pause_predicates (delete v) = not (is_paused none v)

unfoldable pub unpaused_predicates : WatchEvent Cluster → Bool
unpaused_predicates (update old new) = old.paused && not new.paused
unpaused_predicates (create cluster) = not cluster.paused
unpaused_predicates (delete cluster) = false
