-- ===== src/Controller/Machine/Request.antt =====
-- controllers/ucloudmachine_controller.go: `Reconcile`, from the request of a name to the scopes of its
-- objects and back.
pub mod Bars
use cluster_api_provider_ucl.Prelude.{String, true, Option, none, some, [], if◌then◌else◌}
use cluster_api_provider_ucl.Go.{
  Error, Result, ok, err, panic, errorf_of, pure, fail, crash, ◌>>=◌, ◌>>◌,
}
use cluster_api_provider_ucl.Api.Cluster.{UcloudCluster, Cluster as CapiCluster}
use cluster_api_provider_ucl.Api.Machine.{UcloudMachine, Machine as CapiMachine}
use cluster_api_provider_ucl.Cloud.{
  Environment, Reply, get_ucloud_machine, get_ucloud_cluster, get_owner_machine,
  get_cluster_from_metadata,
}
use cluster_api_provider_ucl.Scope.{ClusterScope, MachineOp, call, update_cluster, on_cluster}
use cluster_api_provider_ucl.Scope.Cluster
use cluster_api_provider_ucl.Scope.Cluster.{Defaults, new_cluster_scope}
use cluster_api_provider_ucl.Scope.Machine.{MachineScope, new_machine_scope}
use cluster_api_provider_ucl.Controller.Pause.{is_paused}
use cluster_api_provider_ucl.Controller.Finalizers.{CtrlResult, done, after_close}
use cluster_api_provider_ucl.Controller.Machine.{update_machine, close_machine}

-- The deferred `Close` of the cluster's scope, after all that follows its creation.
abbrev close_cluster : (E : Environment) → MachineOp E CtrlResult → MachineOp E CtrlResult
close_cluster E m s =
    let ran = m s in
    let closed = on_cluster E (Cluster.close E) ran.1 in (after_close ran.0 closed.0, closed.1)

module _ (E : Environment) (d : Defaults) (cluster_helper_error : UcloudCluster → Option Error)
    (machine_helper_error : UcloudMachine → Option Error) where
  with_machine_scope : ClusterScope → Result (MachineScope × UcloudMachine) → MachineOp E CtrlResult
  unfolding close_machine
  with_machine_scope sc (ok (ms, m)) = do update_machine λ _. m; close_machine E sc ms
  with_machine_scope sc (err e) = fail (errorf_of "failed to create scope: %+v" [] e)
  with_machine_scope sc (panic why) = crash why

  with_scopes :
      UcloudMachine
      → CapiMachine
      → CapiCluster
      → Result (ClusterScope × UcloudCluster)
      → MachineOp E CtrlResult
  unfolding with_machine_scope
  with_scopes m machine cluster (ok (sc, c)) = do
    on_cluster E (update_cluster λ _. c)
    close_cluster E (
        with_machine_scope sc (
          new_machine_scope machine_helper_error (record {
            client = true;
            cluster = some cluster;
            machine = some machine;
            ucloud_cluster = some c;
            ucloud_machine = some m;
          })))
  with_scopes m machine cluster (err e) = fail e
  with_scopes m machine cluster (panic why) = crash why

  with_cluster_object :
      UcloudMachine → CapiMachine → CapiCluster → Reply UcloudCluster → MachineOp E CtrlResult
  unfolding with_scopes
  with_cluster_object m machine cluster reply = elim reply.error [
    | some _ ↦ pure done
    | none ↦ with_scopes m machine cluster (
        new_cluster_scope d cluster_helper_error (record {
          clients = record { config = none; credential = none };
          cluster = some cluster;
          ucloud_cluster = some reply.body;
        }))
  ]

  -- `cluster.Spec.InfrastructureRef.Name` follows a pointer that may be nil.
  with_capi_cluster : UcloudMachine → CapiMachine → CapiCluster → MachineOp E CtrlResult
  unfolding with_cluster_object
  with_capi_cluster m machine cluster =
      if is_paused E (some cluster) m.meta then pure done else elim cluster.infrastructure_ref [
        | none ↦ crash "nil pointer dereference"
        | some ref ↦ do
          reply ← on_cluster E (call E (get_ucloud_cluster m.meta.namespace ref))
          with_cluster_object m machine cluster reply
      ]

  with_owner : UcloudMachine → Option CapiMachine → MachineOp E CtrlResult
  unfolding with_capi_cluster
  with_owner m none = pure done
  with_owner m (some machine) = do
    reply ← on_cluster E (call E (get_cluster_from_metadata machine.meta))
    elim reply.error [ some _ ↦ pure done | none ↦ with_capi_cluster m machine reply.body ]

  with_object : Reply UcloudMachine → MachineOp E CtrlResult
  unfolding with_owner
  with_object reply = elim reply.error [
    | some e ↦ if E.is_not_found e then pure done else fail e
    | none ↦ do
      owner ← on_cluster E (call E (get_owner_machine reply.body.meta))
      elim owner.error [ some e ↦ fail e | none ↦ with_owner reply.body owner.body ]
  ]

  -- `Reconcile` for the request of a namespace and a name.
  unfoldable pub reconcile_request : String → String → MachineOp E CtrlResult
  unfolding with_object
  reconcile_request namespace name = do
    reply ← on_cluster E (call E (get_ucloud_machine namespace name))
    with_object reply
