-- ===== src/Service/Terminate.antt =====
-- cloud/services/uhost.go: `terminateUHost` with its callers, and cloud/services/ugroup.go:
-- `CleanResourceInGroup`.
pub mod Emits
pub mod Ends
pub mod Sends
pub mod Succeeds
pub mod Stopped
pub mod Stale
use cluster_api_provider_ucl.Prelude.{
  ℕ, ◌*◌, ℤ, pos, String, ◌<>◌, Bool, true, Option, none, some, List, [], ◌∷◌, is_empty, ltb_ℤ,
  if◌then◌else◌, codes_eq,
}
use cluster_api_provider_ucl.Prelude.Text.{same_lower, itoa}
use cluster_api_provider_ucl.Go.{Error, errorf, wrap, ok, pure, wrapping, ◌>>=◌, ◌>>◌}
use cluster_api_provider_ucl.Api.Cluster.{UcloudCluster}
use cluster_api_provider_ucl.Cloud.{
  Environment, Request, Response, no_response, UhostInstanceSet, DescribeUhostInstanceRequest,
  describe_uhost_instance, poweroff_uhost_instance, terminate_uhost_instance,
  search_business_group_resource, SearchBusinessGroupResourceRequest, CommonBase,
  SearchBusinessGroupResourceResponse, ResourceInfo,
}
use cluster_api_provider_ucl.Scope.{
  ClusterScope, Op, MachineOp, request, with_cluster, update_cluster, on_cluster,
}
use cluster_api_provider_ucl.Scope.Cluster
use cluster_api_provider_ucl.Scope.Machine
use cluster_api_provider_ucl.Scope.Machine.{MachineScope}
use cluster_api_provider_ucl.Service.Call.{request_but}
use cluster_api_provider_ucl.Service.Request.{do_request, common_base}
use cluster_api_provider_ucl.Service.Timer.{Timer, minute, second, new_timer, reset}
use cluster_api_provider_ucl.Service.Wait.{Loop, state_is, all_gone, now_is, wait_for}
use cluster_api_provider_ucl.Service.Ulb.{delete_ulb_by_id}

-- A timer of five minutes with a pause of ten seconds in each round is read at most 31 times.
abbrev pub terminate_rounds : ℕ
terminate_rounds = 31

abbrev pub describe_host : UcloudCluster → String → String → DescribeUhostInstanceRequest
describe_host c id zone = record {
  region = Cluster.region c;
  project_id = Cluster.project_id c;
  zone = some zone;
  uhost_ids = id ∷ [];
  tag = Cluster.group_name c;
  subnet_id = none;
}

module _ (E : Environment) where
  abbrev pub stopped_loop : UcloudCluster → String → String → Loop UhostInstanceSet
  stopped_loop c id zone = record {
    asks = describe_host c id zone;
    test = state_is E.state_stopped;
    describe_failed = λ e. wrap e "describe uhost failed" [];
    timed_out = λ _. errorf "waiting for uhost %s stopped timeout" (id ∷ []);
    pause = 10 * second;
  }

  abbrev pub deleted_loop : UcloudCluster → String → String → Loop (Unit {0})
  deleted_loop c id zone = record {
    asks = describe_host c id zone;
    test = all_gone;
    describe_failed = λ e. wrap e "describe uhost failed" [];
    timed_out = λ _. errorf "waiting for uhost %s deleted timeout" (id ∷ []);
    pause = 10 * second;
  }

  pub power_off : UcloudCluster → String → String → Op E Unit
  power_off c id zone =
      request E (λ e. wrap e "poweroff uhost %s failed" (id ∷ []))
        (poweroff_uhost_instance (record {
          region = Cluster.region c;
          project_id = Cluster.project_id c;
          zone = zone;
          uhost_id = id;
        }))

  pub send_terminate : UcloudCluster → String → String → Op E Unit
  send_terminate c id zone =
      request E (λ e. wrap e "terminate uhost %s failed" (id ∷ []))
        (terminate_uhost_instance (record {
          region = Cluster.region c;
          project_id = Cluster.project_id c;
          zone = zone;
          uhost_id = id;
          release_eip = true;
          release_udisk = true;
        }))

  -- The second part of the method, from `TerminateUHostInstance` on, with the timer of the first.
  unfoldable pub destroy : UcloudCluster → String → String → Timer → Op E Unit
  destroy c id zone timer = do
    send_terminate c id zone
    now ← now_is E
    gone ← wait_for E terminate_rounds (deleted_loop c id zone) (reset (5 * minute) now timer)
    pure tt

  unfoldable pub shut_down : UcloudCluster → String → String → Op E Unit
  shut_down c id zone = do
    power_off c id zone
    start ← now_is E
    stopped ← wait_for E terminate_rounds (stopped_loop c id zone) (new_timer (5 * minute) start)
    destroy c id zone stopped.1

  unfoldable pub terminate_uhost : String → String → Op E Unit
  terminate_uhost id zone = with_cluster λ c. do
    hosts ←
        request_but E (pos 8039) (λ e. wrap e "failed to describe instance: %s" (id ∷ []))
          (describe_uhost_instance (describe_host c id zone))
    elim hosts [ [] ↦ pure tt | _ ∷ _ ↦ shut_down c id zone ]

  terminate_at : Option String → String → Op E Unit
  terminate_at none zone = pure tt
  terminate_at (some id) zone = if is_empty id then pure tt else terminate_uhost id zone

  unfoldable pub terminate_instance_and_wait : MachineScope → MachineOp E Unit
  unfolding terminate_at
  terminate_instance_and_wait ms s =
      on_cluster E
        (terminate_at (Machine.get_instance_id E s.ucloud_machine)
          (Machine.zone ms s.ucloud_machine))
        s

  abbrev pub forget_bastion : UcloudCluster → UcloudCluster
  forget_bastion c = record c { status = record (c.status) { bastion = none } }

  unfoldable pub terminate_bastion : Op E Unit
  terminate_bastion = with_cluster λ c. elim c.status.bastion [
    | none ↦ pure tt
    | some b ↦
        if is_empty b.instance_id
        then pure tt
        else do terminate_uhost b.instance_id b.zone; update_cluster forget_bastion
  ]

  -- The cases of the `switch`, in the source's order.
  unfoldable pub clean_resource : ResourceInfo → Op E Unit
  clean_resource r =
      if same_lower r.resource_type_name "ulb"
      then wrapping "clean ulb in business group failed" [] (delete_ulb_by_id E r.id)
      else if same_lower r.resource_type_name "uhost"
      then wrapping "clean uhost in business group failed" [] (terminate_uhost r.id r.zone_id)
      else pure tt

  unfoldable pub clean_resources : List ResourceInfo → Op E Unit
  clean_resources [] = pure tt
  clean_resources (r ∷ rs) = do clean_resource r; clean_resources rs

module _ (E : Environment) (sc : ClusterScope) where
  pub search :
      SearchBusinessGroupResourceRequest
      → SearchBusinessGroupResourceResponse
      → Op E SearchBusinessGroupResourceResponse
  search req res =
      wrapping "search resource in business group failed" []
        (do_request E sc (search_business_group_resource req) res)

  -- The second answer is decoded over the first.
  pub search_again :
      SearchBusinessGroupResourceRequest
      → SearchBusinessGroupResourceResponse
      → Op E SearchBusinessGroupResourceResponse
  search_again req found =
      if ltb_ℤ (pos 10) found.total_count
      then search (record req { limit = some (itoa found.total_count) }) found
      else pure found

  -- The request names no region.
  pub all_resources : UcloudCluster → Op E (List ResourceInfo)
  all_resources c = do
    base ← common_base E "SearchBusinessGroupResource" c
    let req : SearchBusinessGroupResourceRequest = record {
      base = record base { region = none };
      business_id = some c.status.group.group_id;
      limit = none;
      offset = none;
    }
    found ← search req (no_response (search_business_group_resource req))
    more ← search_again req found
    pure more.infos

  unfoldable pub clean_resource_in_group : Op E Unit
  clean_resource_in_group = with_cluster λ c.
      if is_empty c.status.group.group_id
      then pure tt
      else do resources ← all_resources c; clean_resources E resources
