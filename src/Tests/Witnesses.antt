-- ===== src/Tests/Witnesses.antt =====
-- The theorems at concrete inputs.
use cluster_api_provider_ucl.Prelude.{
  inr, false, pos, some, ◌⊎◌, ℕ, ◌≡◌, ◌≢◌, refl, true, none, [], ◌∷◌, All, ◌==◌,
}
use cluster_api_provider_ucl.Go.{ok, err, panic, errorf, wrapping, ◌>>=◌}
use cluster_api_provider_ucl.Service.Request.{
  do_request, build_http_request, dispatch, send, handle, decoded, finish, error_handler,
  error_http_handler,
}
use cluster_api_provider_ucl.Service.Request.Accepts.{do_request-ret_code}
use cluster_api_provider_ucl.Cloud.{
  Request, response_base, no_response, list_business_group, Environment, CreateUhostInstanceRequest,
}
use cluster_api_provider_ucl.Scope.{State, MachineState, with_cluster, on_cluster, request, call}
use cluster_api_provider_ucl.Scope.Calls.{after_call}
use cluster_api_provider_ucl.Service.Timer.{Timer, new_timer, stop}
use cluster_api_provider_ucl.Service.Wait.{no_rounds, now_is, wait_for, state_is}
use cluster_api_provider_ucl.Service.Terminate.{terminate_uhost, destroy}
use cluster_api_provider_ucl.Service.Terminate.Ends.{terminate_uhost-Ends}
use cluster_api_provider_ucl.Service.Terminate.Stale.{terminate_call, look_call, destroy-stale}
use cluster_api_provider_ucl.Service.Instance.{
  launch, create_request, create_instance, build_create_request, choose_zone, get_image_id,
  password, user_data,
}
use cluster_api_provider_ucl.Service.Call.{first}
use cluster_api_provider_ucl.Defaults.{region_image}
use cluster_api_provider_ucl.Scope.Machine.{set_ready, get_bootstrap_data}
use cluster_api_provider_ucl.Service.Instance.Running.{create_instance-running, launch-Ends}
use cluster_api_provider_ucl.Service.Vpc.{reconcile_vpc}
use cluster_api_provider_ucl.Service.Vpc.Adopts.{
  reconcile_vpc-adopts, reconcile_vpc-creates, search_call, create_call, with_vpc,
}
use cluster_api_provider_ucl.Controller.Cluster.{reconcile_delete}
use cluster_api_provider_ucl.Controller.Cluster.Spares.{Spares, reconcile_delete-Spares}
use cluster_api_provider_ucl.Controller.Cluster.Waits.{IsLookup, reconcile_delete-Remains}
use cluster_api_provider_ucl.Controller.Finalizers.{
  done, machine_mark, machine_suffix, marked_machine,
}
use cluster_api_provider_ucl.Controller.Finalizers.Marks.{
  dotless, before_dot, marked_machine-machine_mark,
}
use cluster_api_provider_ucl.Prelude.Text.{trim_space, has_suffix, replace_all}
use cluster_api_provider_ucl.Controller.Machine.{settle_instance}
use cluster_api_provider_ucl.Controller.Machine.Verdict.{
  IsFailed, settle_instance-ready, settle_instance-IsFailed,
}
use cluster_api_provider_ucl.Controller.Machine.{handle_state, update_machine, record_instance}
use cluster_api_provider_ucl.Controller.Machine.Records.{IsRecorded, settle_instance-IsRecorded}
use cluster_api_provider_ucl.Tests.Samples.{
  new_cluster, whole_cluster, marked_cluster, cluster_scope, machine_scope, ucloud_machine, host_in,
  user_vpc, at_zero, machine_at,
}
use cluster_api_provider_ucl.Tests.World.{environment, environment-IsClock}

abbrev quiet : Environment
quiet = environment [] []

-- A host that stays as it is.
abbrev stuck : Environment
stuck = environment (host_in "Running" ∷ []) []

abbrev whole : State ℕ
whole = at_zero whole_cluster 0

reconcile_delete-Spares_example :
    All (Spares whole_cluster.spec.network) (reconcile_delete quiet cluster_scope whole).1.events
reconcile_delete-Spares_example = reconcile_delete-Spares quiet cluster_scope whole tt

reconcile_delete-Remains_example :
    ((reconcile_delete quiet cluster_scope (at_zero marked_cluster 0)).0 ≢ ok done)
    × All IsLookup (reconcile_delete quiet cluster_scope (at_zero marked_cluster 0)).1.events
unfolding has_suffix
reconcile_delete-Remains_example =
    reconcile_delete-Remains quiet cluster_scope
      ("ucloudcluster.infrastructure.cluster.x-k8s.io" ∷ []) "m0.ucloudmachine" []
      (at_zero marked_cluster 0) refl (refl, tt) (record { marks = refl; present = λ w. refl }) tt

create_instance-running_example : ((host_in "Running").state == "Running") ≡ true
unfolding create_instance with_cluster on_cluster request call wrapping get_bootstrap_data
    build_create_request choose_zone get_image_id region_image password user_data launch first
    now_is new_timer wait_for state_is stop ◌>>=◌ replace_all
create_instance-running_example =
    create_instance-running stuck cluster_scope machine_scope (machine_at whole_cluster 0)
      (host_in "Running") refl

abbrev host_request : CreateUhostInstanceRequest
host_request =
    create_request stuck cluster_scope machine_scope ucloud_machine whole_cluster "cn-bj2-02"
      "uimage-kdwczn" "pass" "#cloud-config"

launch-Ends_example :
    (launch stuck cluster_scope whole_cluster host_request whole).0 ≢ panic no_rounds
launch-Ends_example =
    launch-Ends stuck cluster_scope whole_cluster host_request whole
      (environment-IsClock (host_in "Running" ∷ []) [])

terminate_uhost-Ends_example :
    (terminate_uhost stuck "uhost-1" "cn-bj2-02" whole).0 ≢ panic no_rounds
terminate_uhost-Ends_example =
    terminate_uhost-Ends stuck (environment-IsClock (host_in "Running" ∷ []) []) "uhost-1"
      "cn-bj2-02" whole

-- The first loop's timer fired after it had been read for the last time.
abbrev late_timer : Timer
late_timer = record { deadline = none; sent = true }

destroy-stale_example : destroy stuck whole_cluster "uhost-1" "cn-bj2-02" late_timer whole ≡ (
  err (errorf "waiting for uhost %s deleted timeout" ("uhost-1" ∷ [])),
  after_call stuck
      (look_call stuck whole_cluster "uhost-1" "cn-bj2-02")
      (after_call stuck (terminate_call stuck whole_cluster "uhost-1" "cn-bj2-02") whole),
)
destroy-stale_example =
    destroy-stale stuck whole_cluster "uhost-1" "cn-bj2-02" late_timer whole (host_in "Running") []
      refl refl refl refl

-- UCloud knows the user's VPC.
abbrev with_user_vpc : Environment
with_user_vpc = environment [] (user_vpc ∷ [])

reconcile_vpc-adopts_example : reconcile_vpc with_user_vpc cluster_scope (at_zero new_cluster 0) ≡ (
  ok tt,
  with_vpc with_user_vpc cluster_scope (at_zero new_cluster 0) user_vpc "10.0.0.0/16" (
      after_call with_user_vpc
        (search_call with_user_vpc cluster_scope (at_zero new_cluster 0))
        (at_zero new_cluster 0)),
)
reconcile_vpc-adopts_example =
    reconcile_vpc-adopts with_user_vpc cluster_scope (at_zero new_cluster 0) [] user_vpc []
      "10.0.0.0/16" [] refl refl refl tt (inr refl) refl

abbrev new_state : State ℕ
new_state = at_zero new_cluster 0

reconcile_vpc-creates_example : reconcile_vpc quiet cluster_scope new_state ≡ (
  ok tt,
  with_vpc quiet cluster_scope new_state
      (record { name = "cluster-api-demo-vpc"; network = "10.0.0.0/16" ∷ []; vpc_id = "vpc-new" })
      "10.0.0.0/16"
      (after_call quiet
        (create_call quiet cluster_scope new_state)
        (after_call quiet (search_call quiet cluster_scope new_state) new_state)),
)
reconcile_vpc-creates_example =
    reconcile_vpc-creates quiet cluster_scope new_state refl refl tt refl

settle_instance-IsRecorded_example :
    IsRecorded stuck whole_cluster
      (host_in "Running")
      (settle_instance stuck cluster_scope machine_scope
        (host_in "Running")
        (machine_at whole_cluster 0)).1.ucloud_machine
settle_instance-IsRecorded_example =
    settle_instance-IsRecorded stuck cluster_scope machine_scope (host_in "Running")
      (machine_at whole_cluster 0)

-- A machine that was ready, whose instance has no state for now.
abbrev ready_state : MachineState ℕ
ready_state = record (machine_at whole_cluster 0) { ucloud_machine = set_ready ucloud_machine }

settle_instance-ready_example : ready_state.ucloud_machine.status.ready ≡ true
unfolding settle_instance handle_state update_machine record_instance ◌>>=◌
settle_instance-ready_example =
    settle_instance-ready stuck cluster_scope machine_scope (host_in "") ready_state refl refl

settle_instance-IsFailed_example :
    IsFailed stuck cluster_scope machine_scope
      (host_in "Install Fail")
      (settle_instance stuck cluster_scope machine_scope
        (host_in "Install Fail")
        ready_state).1.ucloud_machine
settle_instance-IsFailed_example =
    settle_instance-IsFailed stuck cluster_scope machine_scope (host_in "Install Fail") ready_state
      refl refl refl

marked_machine-machine_mark_example :
    (has_suffix (machine_mark "m0.rack1") machine_suffix ≡ true)
    × (marked_machine (machine_mark "m0.rack1") ≡ "m0")
    × (((dotless "m0.rack1" ≡ true) × (before_dot "m0.rack1" ≡ "m0.rack1"))
        ⊎ ((dotless "m0.rack1" ≡ false) × (before_dot "m0.rack1" ≢ "m0.rack1")))
marked_machine-machine_mark_example = marked_machine-machine_mark "m0.rack1"

abbrev group_request : Request
group_request = list_business_group (record {
  base = record {
    action = "ListBusinessGroup";
    request_time = 0;
    region = some "cn-bj2";
    zone = none;
    project_id = some "org-1";
  };
})

do_request-ret_code_example :
    (response_base group_request (no_response group_request)).ret_code ≡ pos 0
unfolding do_request build_http_request dispatch send handle decoded finish error_handler
    error_http_handler trim_space ◌>>=◌
do_request-ret_code_example =
    do_request-ret_code quiet cluster_scope group_request (no_response group_request)
      (no_response group_request) whole refl
