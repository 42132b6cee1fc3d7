-- ===== src/Controller/Cluster.antt =====
-- controllers/ucloudcluster_controller.go: `Reconcile`, `reconcile` and `reconcileDelete`.
pub mod Emits
pub mod Guards
pub mod Makes
pub mod Lifecycle
pub mod Ready
pub mod Remembers
pub mod Served
pub mod Settles
pub mod Spares
pub mod Steady
pub mod Waits
use cluster_api_provider_ucl.Prelude.{
  ℕ, pos, String, Bool, true, false, Option, none, some, List, [], ◌∷◌, is_empty, insert,
  if◌then◌else◌,
}
use cluster_api_provider_ucl.Go.{
  Error, Result, ok, err, panic, errorf_of, wrapping, pure, fail, crash, ◌>>=◌, ◌>>◌,
}
use cluster_api_provider_ucl.Api.Cluster.{
  UcloudCluster, Cluster as CapiCluster, FailureDomainSpec, cluster_finalizer,
}
use cluster_api_provider_ucl.Cloud.{Environment, Reply, get_ucloud_cluster, get_owner_cluster}
use cluster_api_provider_ucl.Scope.{ClusterScope, Op, State, call, with_cluster, update_cluster}
use cluster_api_provider_ucl.Scope.Cluster
use cluster_api_provider_ucl.Scope.Cluster.{Defaults, new_cluster_scope}
use cluster_api_provider_ucl.Service.Group.{reconcile_ugroup, delete_group}
use cluster_api_provider_ucl.Service.Vpc.{reconcile_vpc, delete_vpc}
use cluster_api_provider_ucl.Service.Subnet.{reconcile_subnet, delete_subnet}
use cluster_api_provider_ucl.Service.Nat.{reconcile_nat, delete_nat}
use cluster_api_provider_ucl.Service.Ulb.{reconcile_ulb, delete_ulb}
use cluster_api_provider_ucl.Service.Request.{get_zones}
use cluster_api_provider_ucl.Service.Bastion.{create_bastion_instance}
use cluster_api_provider_ucl.Service.Capu.{create_capu_cluster_for, delete_capu_cluster_for}
use cluster_api_provider_ucl.Service.Terminate.{terminate_bastion, clean_resource_in_group}
use cluster_api_provider_ucl.Controller.Pause.{is_paused}
use cluster_api_provider_ucl.Controller.Finalizers.{
  CtrlResult, done, retry_after, missing, set_finalizers, machines_gone, after_close,
}

-- The map of failure domains, one entry for each zone.
abbrev pub domains_of : List String → List (String × FailureDomainSpec)
domains_of [] = []
domains_of (zone ∷ zones) = insert zone (record { control_plane = true }) (domains_of zones)

abbrev pub set_endpoint : UcloudCluster → UcloudCluster
set_endpoint c = record c {
  spec = record (c.spec) {
    control_plane_endpoint = record { host = c.status.network.ulb.eip.eip_addr; port = pos 6443 };
  };
}

abbrev pub set_ready : List String → UcloudCluster → UcloudCluster
set_ready zones c = record c {
  status = record (c.status) { failure_domains = domains_of zones; ready = true };
}

-- The arguments of the wrapped errors.
abbrev path_of : UcloudCluster → List String
path_of c = c.meta.namespace ∷ c.meta.name ∷ []

module _ (E : Environment) where
  unfoldable pub step : String → Op E Unit → Op E Unit
  step format m = with_cluster λ c. wrapping format (path_of c) m

  unfoldable pub add_mark : String → Op E Unit
  add_mark finalizer =
      update_cluster λ c. set_finalizers (E.add_finalizer finalizer c.meta.finalizers) c

  unfoldable pub drop_mark : String → Op E Unit
  drop_mark finalizer =
      update_cluster
        λ c. set_finalizers (E.remove_finalizer finalizer c.meta.finalizers c.meta.finalizers).0 c

module _ (E : Environment) (sc : ClusterScope) where
  -- The five steps that make the cluster's resources.
  unfoldable pub reconcile_resources : Op E Unit
  reconcile_resources = do
    step E "failed to reconcile group for UCloudCluster %s/%s" (reconcile_ugroup E sc)
    step E "failed to reconcile network for UCloudCluster %s/%s" (reconcile_vpc E sc)
    step E "failed to reconcile subnet for UCloudCluster %s/%s" (reconcile_subnet E sc)
    step E "failed to reconcile nat gateway for UCloudCluster %s/%s" (reconcile_nat E)
    step E "failed to reconcile load balancers for UCloudCluster %s/%s" (reconcile_ulb E sc)

  -- From the availability zones on.
  unfoldable pub announce : UcloudCluster → Op E CtrlResult
  announce c = do
    zones ←
        wrapping "failed to get available zones for UCloudCluster %s/%s" (path_of c) (get_zones E)
    update_cluster (set_ready zones)
    step E "failed to create bastion instance for UCloudCluster %s/%s"
        (create_bastion_instance E sc)
    step E "failed to create uk8s capu cluster for UCloudCluster %s/%s"
        (create_capu_cluster_for E sc)
    pure done

  -- From the test on the load balancer's address on.
  unfoldable pub publish : Op E CtrlResult
  publish = with_cluster λ c.
      if is_empty c.status.network.ulb.eip.eip_addr
      then pure (retry_after 15)
      else do update_cluster set_endpoint; announce c

  unfoldable pub reconcile : Op E CtrlResult
  reconcile = do add_mark E cluster_finalizer; Cluster.patch_object E; reconcile_resources; publish

  -- The eight steps that take the resources down again, in the source's order.
  unfoldable pub delete_resources : Op E Unit
  delete_resources = do
    step E "error deleting bastion for UCloudCluster %s/%s" (terminate_bastion E)
    step E "error deleting load balancer for UCloudCluster %s/%s" (delete_ulb E)
    step E "error deleting nat gateway for UCloudCluster %s/%s" (delete_nat E)
    step E "error cleaning resource in business group for UCloudCluster %s/%s"
        (clean_resource_in_group E sc)
    step E "error deleting vpc subnet for UCloudCluster %s/%s" (delete_subnet E)
    step E "error deleting vpc for UCloudCluster %s/%s" (delete_vpc E)
    step E "error deleting group for UCloudCluster %s/%s" (delete_group E sc)
    step E "failed to delete uk8s capu cluster for UCloudCluster %s/%s"
        (delete_capu_cluster_for E sc)

  unfoldable pub finish_delete : Bool → Op E CtrlResult
  finish_delete false = pure (retry_after 15)
  finish_delete true = do delete_resources; drop_mark E cluster_finalizer; pure done

  unfoldable pub reconcile_delete : Op E CtrlResult
  reconcile_delete = do gone ← machines_gone E sc; finish_delete gone

  -- The choice at the end of `Reconcile`, and the deferred `Close`.
  unfoldable pub reconcile_either : Op E CtrlResult
  reconcile_either =
      with_cluster
        λ c. elim c.meta.deletion_timestamp [ none ↦ reconcile | some _ ↦ reconcile_delete ]

  unfoldable pub reconcile_and_close : Op E CtrlResult
  reconcile_and_close s =
      let ran = reconcile_either s in
      let closed = Cluster.close E ran.1 in (after_close ran.0 closed.0, closed.1)

module _ (E : Environment) (d : Defaults) (helper_error : UcloudCluster → Option Error) where
  with_scope : Result (ClusterScope × UcloudCluster) → Op E CtrlResult
  with_scope (ok (sc, c)) = do update_cluster λ _. c; reconcile_and_close E sc
  with_scope (err e) = fail (errorf_of "failed to create scope: %+v" [] e)
  with_scope (panic why) = crash why

  with_owner : UcloudCluster → Option CapiCluster → Op E CtrlResult
  unfolding with_scope
  with_owner c owner = if is_paused E owner c.meta then pure done else elim owner [
    | none ↦ pure done
    | some cluster ↦ with_scope (
        new_cluster_scope d helper_error (record {
          clients = record { config = none; credential = none };
          cluster = some cluster;
          ucloud_cluster = some c;
        }))
  ]

  with_object : Reply UcloudCluster → Op E CtrlResult
  unfolding with_owner
  with_object reply = elim reply.error [
    | some e ↦ if E.is_not_found e then pure done else fail e
    | none ↦ do
      owner ← call E (get_owner_cluster reply.body.meta)
      elim owner.error [ some e ↦ fail e | none ↦ with_owner reply.body owner.body ]
  ]

  -- `Reconcile` for the request of a namespace and a name.
  unfoldable pub reconcile_request : String → String → Op E CtrlResult
  unfolding with_object
  reconcile_request namespace name = do
    reply ← call E (get_ucloud_cluster namespace name)
    with_object reply
