-- ===== src/Service/Terminate/Emits.antt =====
-- What the operations that terminate hosts and clean the business group send.
use cluster_api_provider_ucl.Prelude.{
  ◌*◌, pos, String, Option, none, some, List, [], ◌∷◌, is_empty, ltb_ℤ, if◌then◌else◌,
}
use cluster_api_provider_ucl.Prelude.Text.{same_lower}
use cluster_api_provider_ucl.Go.{pure, ◌>>=◌}
use cluster_api_provider_ucl.Go.Keeps.{Keeps, Keeps-pure, Keeps-wrapping, Keeps-if, Keeps-bind}
use cluster_api_provider_ucl.Api.Network.{Instance}
use cluster_api_provider_ucl.Api.Cluster.{UcloudCluster}
use cluster_api_provider_ucl.Cloud.{
  Environment, Request, UhostInstanceSet, DescribeUhostInstanceRequest,
  PoweroffUhostInstanceRequest, TerminateUhostInstanceRequest, DeleteUlbRequest,
  describe_uhost_instance, poweroff_uhost_instance, terminate_uhost_instance, delete_ulb,
  ResourceInfo, SearchBusinessGroupResourceRequest, SearchBusinessGroupResourceResponse,
  search_business_group_resource,
}
use cluster_api_provider_ucl.Scope.{ClusterScope, Event, called, posted, update_cluster}
use cluster_api_provider_ucl.Service.Emits.{
  Emits, Keeps-with_cluster, Keeps-update_cluster, Keeps-request, Keeps-request_but, Keeps-now_is,
  Keeps-wait_for,
}
use cluster_api_provider_ucl.Service.Request.Emits.{Keeps-do_request, Keeps-common_base}
use cluster_api_provider_ucl.Service.Timer.{Timer, new_timer, reset, minute}
use cluster_api_provider_ucl.Service.Wait.{wait_for}
use cluster_api_provider_ucl.Service.Ulb.{delete_ulb_by_id}
use cluster_api_provider_ucl.Service.Terminate.{
  terminate_rounds, stopped_loop, deleted_loop, power_off, send_terminate, destroy, shut_down,
  terminate_uhost, terminate_bastion, forget_bastion, clean_resource, clean_resources, search,
  search_again, all_resources, clean_resource_in_group,
}

-- `Q` holds of every call that has to do with hosts, of every deletion of a load balancer, and of
-- every action.
pub record AllowsHosts (Q : Event → Type 0) : Type 0 where
  pub describes : (r : DescribeUhostInstanceRequest) → Q (called (describe_uhost_instance r))
  pub powers_off : (r : PoweroffUhostInstanceRequest) → Q (called (poweroff_uhost_instance r))
  pub terminates : (r : TerminateUhostInstanceRequest) → Q (called (terminate_uhost_instance r))
  pub deletes_ulb : (r : DeleteUlbRequest) → Q (called (delete_ulb r))
  pub posts : (r : Request) → Q (posted r)

module _ (E : Environment) {I : UcloudCluster → Type 0} {Q : Event → Type 0}
    (allows : AllowsHosts Q) where
  Keeps-destroy :
      (c : UcloudCluster) (id zone : String) (t : Timer) → Keeps (Emits I Q) (destroy E c id zone t)
  unfolding destroy send_terminate
  Keeps-destroy c id zone t =
      Keeps-bind (send_terminate E c id zone) _
        (Keeps-request E _ (terminate_uhost_instance _) (allows.terminates _))
        (λ _. Keeps-bind _ _ (Keeps-now_is E) (λ now.
          Keeps-bind
            (wait_for E terminate_rounds (deleted_loop E c id zone) (reset (5 * minute) now t)) _
            (Keeps-wait_for E _ _ _ (allows.describes _)) (λ _. Keeps-pure tt)))

  Keeps-shut_down :
      (c : UcloudCluster) (id zone : String) → Keeps (Emits I Q) (shut_down E c id zone)
  unfolding shut_down power_off
  Keeps-shut_down c id zone =
      Keeps-bind (power_off E c id zone) _
        (Keeps-request E _ (poweroff_uhost_instance _) (allows.powers_off _))
        (λ _. Keeps-bind _ _ (Keeps-now_is E) (λ start.
          Keeps-bind
            (wait_for E terminate_rounds (stopped_loop E c id zone) (new_timer (5 * minute) start))
            _ (Keeps-wait_for E _ _ _ (allows.describes _))
            (λ stopped. Keeps-destroy c id zone stopped.1)))

  if_there :
      (c : UcloudCluster) (id zone : String) (hosts : List UhostInstanceSet)
      → Keeps {A = Unit {0}}
          (Emits {W = E.World} I Q)
          (elim hosts [ [] ↦ pure tt | _ ∷ _ ↦ shut_down E c id zone ])
  if_there c id zone [] = Keeps-pure tt
  if_there c id zone (h ∷ hs) = Keeps-shut_down c id zone

  pub Keeps-terminate_uhost : (id zone : String) → Keeps (Emits I Q) (terminate_uhost E id zone)
  unfolding terminate_uhost
  Keeps-terminate_uhost id zone = Keeps-with_cluster _ (λ c i.
      Keeps-bind _ _ (Keeps-request_but E _ _ _ (allows.describes _))
        (λ hosts. if_there c id zone hosts))

  Keeps-delete_ulb_by_id : (id : String) → Keeps (Emits I Q) (delete_ulb_by_id E id)
  unfolding delete_ulb_by_id
  Keeps-delete_ulb_by_id id =
      Keeps-with_cluster _ (λ c i. Keeps-request_but E _ _ (delete_ulb _) (allows.deletes_ulb _))

  Keeps-clean_resource : (r : ResourceInfo) → Keeps (Emits I Q) (clean_resource E r)
  unfolding clean_resource
  Keeps-clean_resource r =
      Keeps-if (same_lower r.resource_type_name "ulb") _ _
        (λ _. Keeps-wrapping _ [] _ (Keeps-delete_ulb_by_id r.id))
        (λ _.
          Keeps-if (same_lower r.resource_type_name "uhost") _ _
            (λ _. Keeps-wrapping _ [] _ (Keeps-terminate_uhost r.id r.zone_id))
            (λ _. Keeps-pure tt))

  Keeps-clean_resources : (rs : List ResourceInfo) → Keeps (Emits I Q) (clean_resources E rs)
  unfolding clean_resources
  Keeps-clean_resources [] = Keeps-pure tt
  Keeps-clean_resources (r ∷ rs) =
      Keeps-bind _ _ (Keeps-clean_resource r) (λ _. Keeps-clean_resources rs)

  bastion_gone :
      (o : Option Instance)
      → ((c : UcloudCluster) → I c → I (forget_bastion E c))
      → Keeps {A = Unit {0}} (Emits {W = E.World} I Q) (elim o [
        | none ↦ pure tt
        | some b ↦
            if is_empty b.instance_id
            then pure tt
            else terminate_uhost E b.instance_id b.zone >>= λ _. update_cluster (forget_bastion E)
      ])
  bastion_gone none k = Keeps-pure tt
  bastion_gone (some b) k =
      Keeps-if (is_empty b.instance_id) _ _ (λ _. Keeps-pure tt)
        (λ _.
          Keeps-bind _ _ (Keeps-terminate_uhost b.instance_id b.zone)
            (λ _. Keeps-update_cluster (forget_bastion E) k))

  pub Keeps-terminate_bastion :
      ((c : UcloudCluster) → I c → I (forget_bastion E c)) → Keeps (Emits I Q) (terminate_bastion E)
  unfolding terminate_bastion
  Keeps-terminate_bastion k = Keeps-with_cluster _ (λ c i. bastion_gone c.status.bastion k)

module _ (E : Environment) (sc : ClusterScope) {I : UcloudCluster → Type 0} {Q : Event → Type 0}
    (allows : AllowsHosts Q) where
  Keeps-search :
      (req : SearchBusinessGroupResourceRequest) (res : SearchBusinessGroupResourceResponse)
      → Keeps (Emits I Q) (search E sc req res)
  unfolding search
  Keeps-search req res =
      Keeps-wrapping _ [] _
        (Keeps-do_request E sc (search_business_group_resource req) res (allows.posts _))

  Keeps-search_again :
      (req : SearchBusinessGroupResourceRequest) (res : SearchBusinessGroupResourceResponse)
      → Keeps (Emits I Q) (search_again E sc req res)
  unfolding search_again
  Keeps-search_again req res =
      Keeps-if (ltb_ℤ (pos 10) res.total_count) _ _ (λ _. Keeps-search _ res) (λ _. Keeps-pure res)

  Keeps-all_resources : (c : UcloudCluster) → Keeps (Emits I Q) (all_resources E sc c)
  unfolding all_resources
  Keeps-all_resources c = Keeps-bind _ _ (Keeps-common_base E _ c) (λ base.
      Keeps-bind _ _ (Keeps-search _ _)
        (λ found. Keeps-bind _ _ (Keeps-search_again _ found) (λ more. Keeps-pure more.infos)))

  pub Keeps-clean_resource_in_group : Keeps (Emits I Q) (clean_resource_in_group E sc)
  unfolding clean_resource_in_group
  Keeps-clean_resource_in_group = Keeps-with_cluster _ (λ c i.
      Keeps-if (is_empty c.status.group.group_id) _ _ (λ _. Keeps-pure tt)
        (λ _. Keeps-bind _ _ (Keeps-all_resources c) (λ rs. Keeps-clean_resources E allows rs)))
