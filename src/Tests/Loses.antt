-- ===== src/Tests/Loses.antt =====
-- A world in which UCloud makes hosts and fails to describe them.
use cluster_api_provider_ucl.Prelude.{ℕ, suc, ◌+◌, refl, none, some, [], pos}
use cluster_api_provider_ucl.Prelude.Text.{replace_all}
use cluster_api_provider_ucl.Go.{Error, errorf, ◌>>=◌}
use cluster_api_provider_ucl.Defaults.{region_image}
use cluster_api_provider_ucl.Cloud.{
  Environment, Call, Body, Reply, CreateUhostInstanceRequest, describe_uhost_instance, get_secret,
}
use cluster_api_provider_ucl.Scope.{State, MachineState, request, call, on_cluster}
use cluster_api_provider_ucl.Scope.Calls.{after_call}
use cluster_api_provider_ucl.Scope.Machine.{get_bootstrap_data}
use cluster_api_provider_ucl.Service.Instance.{
  build_create_request, create_request, choose_zone, get_image_id, password, user_data,
}
use cluster_api_provider_ucl.Controller.Machine.{reconcile_instance}
use cluster_api_provider_ucl.Controller.Machine.Orphans.{
  IsPrepared, IsOrphaned, reconcile_instance-IsOrphaned,
}
use cluster_api_provider_ucl.Tests.Samples.{
  whole_cluster, cluster_scope, machine_scope, ucloud_machine, machine_at,
}
use cluster_api_provider_ucl.Tests.World.{body, environment_over}

abbrev busy : Error
busy = errorf "service is busy" []

abbrev answer : (c : Call) → Reply (Body c)
answer (describe_uhost_instance r) = record { body = []; ret_code = pos 150; error = some busy }
answer c = record { body = body [] [] c; ret_code = pos 0; error = none }

abbrev losing : Environment
losing = environment_over ℕ (λ c w. (answer c, suc w)) (λ w. w) (λ w. suc w) (λ d w. w + d)

abbrev start : MachineState ℕ
start = machine_at whole_cluster 0

abbrev read : State ℕ
read = after_call losing (get_secret "default" "m0-bootstrap") start.base

abbrev host_request : CreateUhostInstanceRequest
host_request =
    create_request losing cluster_scope machine_scope ucloud_machine whole_cluster "cn-bj2-02"
      "uimage-kdwczn" "cGFzcw==" "#cloud-config v1.17.4"

start-IsPrepared :
    IsPrepared losing cluster_scope host_request "uhost-1" [] machine_scope start read read
      "#cloud-config KUBERNETES_VERSION"
unfolding get_bootstrap_data on_cluster request call build_create_request choose_zone get_image_id
    region_image password user_data replace_all ◌>>=◌
start-IsPrepared = record { no_instance = refl; data_read = refl; request_built = refl }

reconcile_instance-IsOrphaned_example :
    IsOrphaned losing cluster_scope host_request "uhost-1" [] machine_scope start read whole_cluster
      busy
      (reconcile_instance losing cluster_scope machine_scope start)
reconcile_instance-IsOrphaned_example =
    reconcile_instance-IsOrphaned losing cluster_scope host_request "uhost-1" [] machine_scope start
      read read "#cloud-config KUBERNETES_VERSION" busy start-IsPrepared
      (record { accepted = refl; made = refl; lost = refl })
