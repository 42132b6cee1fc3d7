-- ===== src/Controller/Machine.antt =====
-- controllers/ucloudmachine_controller.go: the end of `Reconcile`, `reconcile`, `reconcileDelete` and
-- `getAddresses`.
pub mod Emits
pub mod Once
pub mod Orphans
pub mod Records
pub mod Request
pub mod Retries
pub mod Verdict
use cluster_api_provider_ucl.Prelude.{
  ℕ, String, ◌<>◌, Bool, true, false, not, ◌||◌, Option, none, some, List, [], ◌∷◌, map, is_empty,
  if◌then◌else◌, ◌==◌,
}
use cluster_api_provider_ucl.Go.{
  Error, Result, ok, err, panic, errorf_of, wrap, wrapping, pure, fail, crash, ◌>>=◌, ◌>>◌,
}
use cluster_api_provider_ucl.Api.Cluster.{UcloudCluster, Cluster as CapiCluster}
use cluster_api_provider_ucl.Api.Machine.{
  UcloudMachine, Machine as CapiMachine, MachineAddress, machine_finalizer,
}
use cluster_api_provider_ucl.Cloud.{
  Environment, Reply, UhostInstanceSet, UhostIpSet, get_ucloud_machine, get_ucloud_cluster,
  get_owner_machine, get_cluster_from_metadata, delete_machine,
}
use cluster_api_provider_ucl.Scope.{
  ClusterScope, Op, MachineOp, MachineState, call, request, update_cluster, on_cluster,
}
use cluster_api_provider_ucl.Scope.Cluster
use cluster_api_provider_ucl.Scope.Cluster.{Defaults, new_cluster_scope}
use cluster_api_provider_ucl.Scope.Machine
use cluster_api_provider_ucl.Scope.Machine.{MachineScope, new_machine_scope}
use cluster_api_provider_ucl.Service.Backend.{add_real_server, del_real_server}
use cluster_api_provider_ucl.Service.Capu.{create_capu_host_for, delete_capu_host_for}
use cluster_api_provider_ucl.Service.Instance.{instance_if_exists, create_instance}
use cluster_api_provider_ucl.Service.Terminate.{terminate_instance_and_wait}
use cluster_api_provider_ucl.Service.Ulb.{formatted}
use cluster_api_provider_ucl.Controller.Pause.{is_paused}
use cluster_api_provider_ucl.Controller.Finalizers.{
  CtrlResult, done, retry_after, missing, machine_mark, set_finalizers, after_close,
}
use cluster_api_provider_ucl.Controller.Cluster.{add_mark}

unfoldable pub with_machine :
    {W A : Type 0} → (UcloudMachine → MachineState W → A) → MachineState W → A
with_machine f s = f s.ucloud_machine s

unfoldable pub update_machine :
    {W : Type 0}
    → (UcloudMachine → UcloudMachine)
    → MachineState W
    → Result (Unit {0}) × MachineState W
update_machine f s = (ok tt, record s { ucloud_machine = f s.ucloud_machine })

abbrev pub set_finalizers_of : List String → UcloudMachine → UcloudMachine
set_finalizers_of fs m = record m { meta = record (m.meta) { finalizers = fs } }

abbrev pub not_found_message : String
not_found_message = "uhost instance cannot be found, you may have deleted it manually"

module _ (E : Environment) where
  -- The `switch` on `nic.Type`; the zero value is the empty text.
  unfoldable pub address_type : String → String
  address_type t =
      if t == "Internation" || t == "Bgp"
      then E.external_ip
      else if t == "Private"
      then E.internal_ip
      else ""

  unfoldable pub get_addresses : UhostInstanceSet → List MachineAddress
  get_addresses instance =
      map (λ nic. record { address_type = address_type nic.ip_type; address = nic.ip })
        instance.ip_set

  -- `fmt.Sprintf("ucloud://%s/%s/%s", project, zone, id)`.
  abbrev pub provider_id : UcloudCluster → UhostInstanceSet → String
  provider_id c i = "ucloud://" <> c.spec.project_id <> "/" <> i.zone <> "/" <> i.uhost_id

  -- The lines from `SetProviderID` to `SetAddresses`.
  unfoldable pub record_instance : UcloudCluster → UhostInstanceSet → UcloudMachine → UcloudMachine
  record_instance c i m = record m {
    spec = record (m.spec) { provider_id = some (provider_id c i) };
    status = record (m.status) {
      zone = i.zone;
      instance_id = i.uhost_id;
      instance_status = i.state;
      addresses = get_addresses i;
    };
  }

  abbrev pub unexpected_state : UhostInstanceSet → String
  unexpected_state i =
      "uhost instance " <> i.uhost_id <> " state " <> E.quote i.state <> " is unexpected"

  abbrev pub mark_failed : String → UcloudMachine → UcloudMachine
  mark_failed message m =
      Machine.set_not_ready
        (Machine.set_failure_message message (Machine.set_failure_reason E.update_machine_error m))

  unfoldable pub if_control_plane : MachineScope → Op E Unit → MachineOp E Unit
  if_control_plane ms m = if Machine.is_control_plane ms then on_cluster E m else pure tt

  -- `*machineScope.GetInstanceID()` in the messages of the first two cases.
  unfoldable pub need_id : MachineOp E Unit
  need_id = with_machine λ m. elim (Machine.get_instance_id E m) [
    | none ↦ crash "nil pointer dereference"
    | some _ ↦ pure tt
  ]

  -- The `switch` on the state of the instance: `none` goes on to `CreateCAPUHost`.
  unfoldable pub handle_state : MachineScope → UhostInstanceSet → MachineOp E (Option CtrlResult)
  unfolding if_control_plane need_id
  handle_state ms i =
      if i.state == E.state_running
      then (do
        need_id
        update_machine Machine.set_ready
        if_control_plane ms (add_real_server E i.uhost_id)
        pure none)
      else if i.state == E.state_initializing || i.state == E.state_starting
      then (do need_id; pure none)
      else if is_empty i.state
      then pure (some (retry_after 5))
      else (do
        update_machine (mark_failed (unexpected_state i))
        if_control_plane ms (del_real_server E i.uhost_id)
        pure none)

module _ (E : Environment) (sc : ClusterScope) (ms : MachineScope) where
  unfoldable pub register : Option CtrlResult → MachineOp E CtrlResult
  register (some result) = pure result
  register none = do
    wrapping "failed to create uk8s capu host" [] (create_capu_host_for E sc ms)
    pure done

  -- From `SetProviderID` to the end.
  unfoldable pub settle_instance : UhostInstanceSet → MachineOp E CtrlResult
  unfolding register
  settle_instance i s =
      (update_machine (record_instance E s.ucloud_cluster i) >>= λ _.
      handle_state E ms i >>= register)
        s

  -- No instance was found for the id that the machine has: it failed, and its owner is deleted.
  give_up : MachineOp E CtrlResult
  give_up = do
    update_machine (mark_failed E not_found_message)
    on_cluster E (request E (λ e. e) (delete_machine ms.machine))
    pure done

  create_and_settle : MachineOp E CtrlResult
  create_and_settle = do
    i ← wrapping "failed to create UCloudMachine instance" [] (create_instance E sc ms)
    settle_instance i

  without_instance : Option String → MachineOp E CtrlResult
  unfolding give_up create_and_settle
  without_instance (some _) = give_up
  without_instance none = create_and_settle

  -- From the search for the instance on.
  unfoldable pub reconcile_instance : MachineOp E CtrlResult
  unfolding without_instance
  reconcile_instance = do
    found ← wrapping "failed to query UCloudMachine instance" [] (instance_if_exists E)
    elim found [
      | some i ↦ settle_instance i
      | none ↦ with_machine λ m. without_instance (Machine.get_instance_id E m)
    ]

  -- The two tests that wait for the cluster and for the bootstrap data.
  when_prepared : MachineOp E CtrlResult
  when_prepared =
      if not ms.cluster.infrastructure_ready
      then pure done
      else elim ms.machine.data_secret_name [ none ↦ pure done | some _ ↦ reconcile_instance ]

  proceed : MachineOp E CtrlResult
  unfolding when_prepared
  proceed = do
    update_machine (λ m. set_finalizers_of (E.add_finalizer machine_finalizer m.meta.finalizers) m)
    Machine.patch_object E
    with_machine (λ m. on_cluster E (add_mark E (machine_mark m.meta.name)))
    on_cluster E (Cluster.patch_object E)
    when_prepared

  abbrev has_failed : UcloudMachine → Bool
  has_failed m = elim m.status.failure_reason [
    | some _ ↦ true
    | none ↦ elim m.status.failure_message [ some _ ↦ true | none ↦ false ]
  ]

  unfoldable pub reconcile : MachineOp E CtrlResult
  unfolding proceed
  reconcile = with_machine λ m. if has_failed m then pure done else proceed

  take_down : UhostInstanceSet → MachineOp E Unit
  unfolding if_control_plane
  take_down i = do
    wrapping "failed to terminate instance %s" (i.uhost_id ∷ [])
        (if_control_plane E ms (del_real_server E i.uhost_id))
    wrapping "failed to delete uk8s capu host" [] (delete_capu_host_for E sc)
    formatted "failed to terminate instance: %+v" (terminate_instance_and_wait E ms)

  unfoldable pub reconcile_delete : MachineOp E CtrlResult
  unfolding take_down
  reconcile_delete = do
    found ← wrapping "failed to query UCloudMachine instance" [] (instance_if_exists E)
    elim found [ none ↦ pure tt | some i ↦ take_down i ]
    update_machine (λ m.
        set_finalizers_of
          (E.remove_finalizer machine_finalizer m.meta.finalizers m.meta.finalizers).0 m)
    pure done

  -- The choice at the end of `Reconcile`, with the deferred `Close` of the machine's scope and then
  -- that of the cluster's.
  reconcile_either : MachineOp E CtrlResult
  reconcile_either =
      with_machine
        λ m. elim m.meta.deletion_timestamp [ none ↦ reconcile | some _ ↦ reconcile_delete ]

  close_machine : MachineOp E CtrlResult
  unfolding reconcile_either
  close_machine s =
      let ran = reconcile_either s in
      let closed = Machine.close E ran.1 in (after_close ran.0 closed.0, closed.1)
