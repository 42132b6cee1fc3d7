-- ===== src/Controller/Machine/Orphans.antt =====
-- The host that is left behind when UCloud creates it and does not describe it.
use cluster_api_provider_ucl.Prelude.{◌≡◌, ◌∙◌, refl, String, none, some, List, [], ◌∷◌, ◌++◌, ◌*◌}
use cluster_api_provider_ucl.Go.{Error, Result, err, ok, wrap, wrapping, ◌>>=◌}
use cluster_api_provider_ucl.Api.Cluster.{UcloudCluster}
use cluster_api_provider_ucl.Cloud.{
  Environment, Call, CreateUhostInstanceRequest, create_uhost_instance, describe_uhost_instance,
}
use cluster_api_provider_ucl.Scope.{
  called, ClusterScope, MachineState, State, with_cluster, on_cluster,
}
use cluster_api_provider_ucl.Scope.Calls.{reply_to, after_call, request-ok}
use cluster_api_provider_ucl.Scope.Machine
use cluster_api_provider_ucl.Scope.Machine.{MachineScope}
use cluster_api_provider_ucl.Service.Call.{first}
use cluster_api_provider_ucl.Service.Timer.{minute, new_timer}
use cluster_api_provider_ucl.Service.Wait.{now_is}
use cluster_api_provider_ucl.Service.Wait.Round.{wait_for-unanswered}
use cluster_api_provider_ucl.Controller.Finalizers.{CtrlResult}
use cluster_api_provider_ucl.Controller.Machine.{
  reconcile_instance, with_machine, without_instance, create_and_settle,
}
use cluster_api_provider_ucl.Service.Instance.{
  create_with, create_for, instance_if_exists, look_for_id, build_create_request, running_loop,
  launch, create_instance,
}

module _ (E : Environment) (sc : ClusterScope) (req : CreateUhostInstanceRequest) (id : String)
    (others : List String) where
  abbrev ids : List String
  ids = id ∷ others

  abbrev pub make_call : Call
  make_call = create_uhost_instance req

  abbrev pub look_call : UcloudCluster → Call
  look_call c = describe_uhost_instance (running_loop E sc c req ids).asks

  -- UCloud makes hosts and fails to describe them.
  pub record LosesHost (c : UcloudCluster) (s : State E.World) (e : Error) : Type 0 where
    pub accepted : (reply_to E make_call s).error ≡ none
    pub made : (reply_to E make_call s).body ≡ ids
    pub lost : (reply_to E (look_call c) (after_call E make_call s)).error ≡ some e

  launch-LosesHost :
      (c : UcloudCluster) (s : State E.World) (e : Error)
      → LosesHost c s e
      → launch E sc c req s ≡ (
        err (wrap e "describe uhost failed" []),
        after_call E (look_call c) (after_call E make_call s),
      )
  unfolding launch first now_is ◌>>=◌
  launch-LosesHost c s e l =
      rw (request-ok E make_call s (λ x. wrap x "create uhost failed" []) l.accepted) (
        rw l.made (
          rw
            (wait_for-unanswered E (running_loop E sc c req ids) 10
              (new_timer (5 * minute) (E.now (after_call E make_call s).world))
              (after_call E make_call s) e l.lost)
            refl))

  module _ (ms : MachineScope) (s : MachineState E.World) where
    -- The machine has no instance, its bootstrap data is read, and the request is built from it.
    pub record IsPrepared (read built : State E.World) (script : String) : Type 0 where
      pub no_instance : Machine.get_instance_id E s.ucloud_machine ≡ none
      pub data_read : Machine.get_bootstrap_data E ms s ≡ (ok script, record s { base = read })
      pub request_built :
          build_create_request E sc ms s.ucloud_machine read.ucloud_cluster script read
          ≡ (ok req, built)

    -- The machine's object is as it was, without an instance, though a host was made.
    pub record IsOrphaned (built : State E.World) (c : UcloudCluster) (e : Error)
        (r : Result CtrlResult × MachineState E.World) : Type 0 where
      pub failed :
          r.0
          ≡ err (
              wrap (wrap e "describe uhost failed" []) "failed to create UCloudMachine instance" [])
      pub sent :
          r.1.base.events ≡ (built.events ++ (called make_call ∷ [])) ++ (called (look_call c) ∷ [])
      pub machine_same : r.1.ucloud_machine ≡ s.ucloud_machine
      pub no_instance_yet : Machine.get_instance_id E r.1.ucloud_machine ≡ none

    -- The creation fails, and the machine's object is as it was.
    creation_fails :
        (read built : State E.World) (script : String) (e : Error)
        → IsPrepared read built script
        → LosesHost read.ucloud_cluster built e
        → create_and_settle E sc ms s ≡ (
          err (
              wrap
                (wrap e "describe uhost failed" [])
                "failed to create UCloudMachine instance"
                []),
          record s {
            base = after_call E (look_call read.ucloud_cluster) (after_call E make_call built);
          },
        )
    unfolding create_and_settle create_instance create_for create_with on_cluster with_cluster
        wrapping ◌>>=◌
    creation_fails read built script e p l =
        rw p.data_read
          (rw p.request_built (rw (launch-LosesHost read.ucloud_cluster built e l) refl))

    nothing_found :
        Machine.get_instance_id E s.ucloud_machine ≡ none
        → reconcile_instance E sc ms s ≡ create_and_settle E sc ms s
    unfolding reconcile_instance instance_if_exists look_for_id on_cluster with_machine
        without_instance wrapping ◌>>=◌
    nothing_found n = rw n (rw (n, with_machine) refl)

    -- Say that a machine has no instance yet and that everything for its creation is there. If UCloud
    -- creates the host and then answers the first description of it with an error, the reconciliation
    -- fails with the creation sent, and the machine's object is as it was: the new host's id is not
    -- recorded, so the next reconciliation does not find the host and creates another.
    pub reconcile_instance-IsOrphaned :
        (read built : State E.World) (script : String) (e : Error)
        → IsPrepared read built script
        → LosesHost read.ucloud_cluster built e
        → IsOrphaned built read.ucloud_cluster e (reconcile_instance E sc ms s)
    reconcile_instance-IsOrphaned read built script e p l =
        rw (nothing_found p.no_instance ∙ creation_fails read built script e p l) (record {
          failed = refl;
          sent = refl;
          machine_same = refl;
          no_instance_yet = p.no_instance;
        })
