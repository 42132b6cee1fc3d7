-- ===== src/Controller/Requests.antt =====
-- controllers: the functions that map a watched object to the requests to enqueue. A watched object
-- is of one of the types that the functions test for, or of another.
use cluster_api_provider_ucl.Prelude.{
  String, Option, none, some, List, [], ◌∷◌, is_empty, if◌then◌else◌,
}
use cluster_api_provider_ucl.Go.{pure, ◌>>=◌}
use cluster_api_provider_ucl.Api.Cluster.{UcloudCluster, Cluster}
use cluster_api_provider_ucl.Api.Machine.{Machine}
use cluster_api_provider_ucl.Cloud.{Environment, Reply, list_machines, get_owner_cluster}
use cluster_api_provider_ucl.Scope.{Op, call}

pub record NamespacedName : Type 0 where
  pub namespace : String
  pub name : String

pub data WatchedObject : Type 0 where
  ucloud_cluster : UcloudCluster → WatchedObject
  cluster : Cluster → WatchedObject
  other : WatchedObject

-- The loop of `requestsForCluster` over `machineList.Items`.
unfoldable pub machine_requests : List Machine → List NamespacedName
machine_requests [] = []
machine_requests (m ∷ ms) =
    let rest = machine_requests ms in
    if is_empty m.infrastructure_ref_name
    then rest
    else record { namespace = m.meta.namespace; name = m.infrastructure_ref_name } ∷ rest

abbrev listed : Reply (List Machine) → List NamespacedName
listed reply = elim reply.error [ some _ ↦ [] | none ↦ machine_requests reply.body ]

module _ (E : Environment) where
  unfoldable pub requests_for_cluster : String → String → Op E (List NamespacedName)
  requests_for_cluster namespace name = do
    reply ← call E (list_machines namespace name)
    pure (listed reply)

  -- Both error cases return nothing, as a missing owner does.
  owned_requests : Reply (Option Cluster) → Op E (List NamespacedName)
  owned_requests reply = elim reply.error [
    | some _ ↦ pure []
    | none ↦ elim reply.body [
      | none ↦ pure []
      | some c ↦ requests_for_cluster c.meta.namespace c.meta.name
    ]
  ]

  unfoldable pub ucloud_cluster_to_ucloud_machines : WatchedObject → Op E (List NamespacedName)
  unfolding owned_requests
  ucloud_cluster_to_ucloud_machines (ucloud_cluster c) = do
    reply ← call E (get_owner_cluster c.meta)
    owned_requests reply
  ucloud_cluster_to_ucloud_machines _ = pure []

  unfoldable pub requeue_ucloud_machines_for_unpaused_cluster :
      WatchedObject → Op E (List NamespacedName)
  requeue_ucloud_machines_for_unpaused_cluster (cluster c) = elim c.meta.deletion_timestamp [
    | some _ ↦ pure []
    | none ↦ requests_for_cluster c.meta.namespace c.meta.name
  ]
  requeue_ucloud_machines_for_unpaused_cluster _ = pure []

abbrev cluster_request : Cluster → List NamespacedName
cluster_request c = elim c.infrastructure_ref [
  | none ↦ []
  | some name ↦ record { namespace = c.meta.namespace; name = name } ∷ []
]

unfoldable pub requeue_ucloud_cluster_for_unpaused_cluster : WatchedObject → List NamespacedName
requeue_ucloud_cluster_for_unpaused_cluster (cluster c) = elim c.meta.deletion_timestamp [
  | some _ ↦ []
  | none ↦ cluster_request c
]
requeue_ucloud_cluster_for_unpaused_cluster _ = []
