-- ===== src/Controller/Watches.antt =====
-- controllers: `SetupWithManager` of both reconcilers, which says what each controller watches, how an
-- object leads to requests, and which events pass. The builder and `Watch` are controller-runtime's.
pub mod Wakes
use cluster_api_provider_ucl.Prelude.{ℤ, String, Bool, Option, none, some, List, [], ◌∷◌}
use cluster_api_provider_ucl.Go.{Error, Result, ok, err, panic, wrap, pure}
use cluster_api_provider_ucl.Api.Cluster.{ObjectMeta, UcloudCluster, Cluster as CapiCluster}
use cluster_api_provider_ucl.Api.Machine.{UcloudMachine, Machine as CapiMachine}
use cluster_api_provider_ucl.Cloud.{Environment}
use cluster_api_provider_ucl.Scope.{Op}
use cluster_api_provider_ucl.Controller.Pause.{
  WatchEvent, create, update, delete, pause_predicates, unpaused_predicates,
}
use cluster_api_provider_ucl.Controller.Requests.{
  NamespacedName, WatchedObject, ucloud_cluster, cluster, other, ucloud_cluster_to_ucloud_machines,
  requeue_ucloud_machines_for_unpaused_cluster, requeue_ucloud_cluster_for_unpaused_cluster,
}

-- The types of the objects that the two controllers ask for.
pub data Kind : Type 0 where
  ucloud_clusters ucloud_machines clusters machines : Kind

pub data Object : Type 0 where
  of_ucloud_cluster : UcloudCluster → Object
  of_ucloud_machine : UcloudMachine → Object
  of_cluster : CapiCluster → Object
  of_machine : CapiMachine → Object

-- `e.Meta`.
abbrev pub meta_of : Object → ObjectMeta
meta_of (of_ucloud_cluster c) = c.meta
meta_of (of_ucloud_machine m) = m.meta
meta_of (of_cluster c) = c.meta
meta_of (of_machine m) = m.meta

-- An object as the mapping functions take it.
abbrev pub as_watched : Object → WatchedObject
as_watched (of_ucloud_cluster c) = ucloud_cluster c
as_watched (of_cluster c) = cluster c
as_watched o = other

-- `e.Object.(*clusterv1.Cluster)`, which panics on another type.
abbrev pub as_cluster : Object → Result CapiCluster
as_cluster (of_cluster c) = ok c
as_cluster o = panic "interface conversion"

abbrev pub meta_event : WatchEvent Object → WatchEvent ObjectMeta
meta_event (create o) = create (meta_of o)
meta_event (update old new) = update (meta_of old) (meta_of new)
meta_event (delete o) = delete (meta_of o)

-- The predicates of both watches on clusters; a deletion is refused without a look at the object.
unfoldable pub cluster_predicates : WatchEvent Object → Result Bool
cluster_predicates (create o) = elim (as_cluster o) [
  | ok c ↦ ok (unpaused_predicates (create c))
  | err e ↦ err e
  | panic why ↦ panic why
]
cluster_predicates (update old new) = elim (as_cluster old) [
  | ok c ↦ elim (as_cluster new) [
    | ok c' ↦ ok (unpaused_predicates (update c c'))
    | err e ↦ err e
    | panic why ↦ panic why
  ]
  | err e ↦ err e
  | panic why ↦ panic why
]
cluster_predicates (delete o) = ok Bool.false

-- `controller.Options` as main.go fills it.
pub record ControllerOptions : Type 0 where
  pub max_concurrent_reconciles : ℤ

-- How an event leads to requests: by the object itself, or by a mapping function.
pub data Handler (E : Environment) : Type 0 where
  enqueue_object : Handler E
  enqueue_mapped : (Object → Op E (List NamespacedName)) → Handler E

pub record Source (E : Environment) : Type 0 where
  pub kind : Kind
  pub handler : Handler E

-- What `NewControllerManagedBy` is told before `Build`.
pub record Builder (E : Environment) : Type 0 where
  pub options : ControllerOptions
  pub for_kind : Kind
  pub watches : List (Source E)
  pub event_filter : WatchEvent Object → Bool

-- The arguments of `c.Watch`.
pub record Watch (E : Environment) : Type 0 where
  pub source : Source E
  pub predicates : WatchEvent Object → Result Bool

-- controller-runtime: `Build` and `Watch`.
pub record ControllerRuntime (E : Environment) : Type 1 where
  pub Controller : Type 0
  pub build : Builder E → Result Controller
  pub watch : Controller → Watch E → Result (Unit {0})

module _ (E : Environment) where
  abbrev pub filter : WatchEvent Object → Bool
  filter e = pause_predicates E (meta_event e)

  abbrev pub ucloud_cluster_builder : ControllerOptions → Builder E
  ucloud_cluster_builder options = record {
    options = options;
    for_kind = ucloud_clusters;
    watches = [];
    event_filter = filter;
  }

  abbrev pub ucloud_cluster_watch : Watch E
  ucloud_cluster_watch = record {
    source = record {
      kind = clusters;
      handler =
          enqueue_mapped (λ o. pure (requeue_ucloud_cluster_for_unpaused_cluster (as_watched o)));
    };
    predicates = cluster_predicates;
  }

  -- `machine_to_infrastructure` is the Cluster API's `MachineToInfrastructureMapFunc`, given the kind.
  abbrev pub ucloud_machine_builder :
      (String → Object → List NamespacedName) → ControllerOptions → Builder E
  ucloud_machine_builder machine_to_infrastructure options = record {
    options = options;
    for_kind = ucloud_machines;
    watches =
        record {
          kind = machines;
          handler = enqueue_mapped (λ o. pure (machine_to_infrastructure "UCloudMachine" o));
        }
        ∷ record {
          kind = ucloud_clusters;
          handler = enqueue_mapped (λ o. ucloud_cluster_to_ucloud_machines E (as_watched o));
        }
        ∷ [];
    event_filter = filter;
  }

  abbrev pub ucloud_machine_watch : Watch E
  ucloud_machine_watch = record {
    source = record {
      kind = clusters;
      handler = enqueue_mapped (λ o. requeue_ucloud_machines_for_unpaused_cluster E (as_watched o));
    };
    predicates = cluster_predicates;
  }

  module _ (runtime : ControllerRuntime E) where
    abbrev pub setup_ucloud_cluster : ControllerOptions → Result (Unit {0})
    setup_ucloud_cluster options = elim (runtime.build (ucloud_cluster_builder options)) [
      | ok c ↦ runtime.watch c ucloud_cluster_watch
      | err e ↦ err (wrap e "error creating controller" [])
      | panic why ↦ panic why
    ]

    abbrev pub setup_ucloud_machine :
        (String → Object → List NamespacedName) → ControllerOptions → Result (Unit {0})
    setup_ucloud_machine machine_to_infrastructure options =
        elim (runtime.build (ucloud_machine_builder machine_to_infrastructure options)) [
          | ok c ↦ runtime.watch c ucloud_machine_watch
          | err e ↦ err e
          | panic why ↦ panic why
        ]
