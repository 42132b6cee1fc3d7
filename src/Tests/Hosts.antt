-- ===== src/Tests/Hosts.antt =====
-- The theorems on machines, on the end of hosts and on subnets at concrete inputs.
use cluster_api_provider_ucl.Prelude.{ℕ, suc, ◌+◌, ◌≡◌, refl, pos, some, [], ◌∷◌, All, arith}
use cluster_api_provider_ucl.Go.{ok, panic, errorf, wrapping, ◌>>=◌}
use cluster_api_provider_ucl.Cloud.{Environment}
use cluster_api_provider_ucl.Service.Subnet.{reconcile_subnet}
use cluster_api_provider_ucl.Service.Terminate.{terminate_uhost}
use cluster_api_provider_ucl.Tests.Samples.{
  new_cluster, whole_cluster, cluster_scope, machine_scope, ucloud_machine, host_in, at_zero,
  machine_at,
}
use cluster_api_provider_ucl.Tests.World.{environment}
use cluster_api_provider_ucl.Scope.{State, MachineState}
use cluster_api_provider_ucl.Scope.Calls.{after_call}
use cluster_api_provider_ucl.Scope.Machine.{set_provider_id}
use cluster_api_provider_ucl.Prelude.Text.{split}
use cluster_api_provider_ucl.Service.Terminate.Succeeds.{terminate_uhost-Succeeds}
use cluster_api_provider_ucl.Service.Subnet.Creates.{
  look_call, make_call, with_subnet, reconcile_subnet-creates, reconcile_subnet-panics,
}
use cluster_api_provider_ucl.Controller.Machine
use cluster_api_provider_ucl.Controller.Machine.{settle_instance, reconcile_delete}
use cluster_api_provider_ucl.Controller.Machine.Retries.{reconcile_delete-returned}
use cluster_api_provider_ucl.Service.Instance.{instance_if_exists, look_for_id}
use cluster_api_provider_ucl.Scope.{with_cluster, on_cluster, request, call}
use cluster_api_provider_ucl.Tests.World.{body, environment_over}
use cluster_api_provider_ucl.Controller.Machine.Emits.{SparesHosts}
use cluster_api_provider_ucl.Controller.Machine.Once.{reconcile-SparesHosts, settled-SparesHosts}
use cluster_api_provider_ucl.Tests.Fading.{
  fading, running_at, fading-IsClock, IsOff, IsGone, fading-Cooperates,
}

abbrev idle : Environment
idle = environment [] []

-- A host that runs.
abbrev running : Environment
running = environment (host_in "Running" ∷ []) []

-- The machine after an instance was recorded.
abbrev with_id : MachineState ℕ
with_id = record (machine_at whole_cluster 0) {
  ucloud_machine = set_provider_id "ucloud://org-1/cn-bj2-02/uhost-1" ucloud_machine;
}

reconcile-SparesHosts_example :
    All SparesHosts (Machine.reconcile idle cluster_scope machine_scope with_id).1.base.events
reconcile-SparesHosts_example =
    reconcile-SparesHosts idle cluster_scope machine_scope "uhost-1" with_id refl tt

-- A later state with the machine that the first reconciliation left.
abbrev settled : MachineState ℕ
settled = record (machine_at whole_cluster 0) {
  ucloud_machine =
      (settle_instance running cluster_scope machine_scope (host_in "Running")
        (machine_at whole_cluster 0)).1.ucloud_machine;
}

settled-SparesHosts_example :
    All SparesHosts (Machine.reconcile running cluster_scope machine_scope settled).1.base.events
settled-SparesHosts_example =
    settled-SparesHosts running cluster_scope machine_scope (host_in "Running")
      (machine_at whole_cluster 0) settled refl refl tt

terminate_uhost-Succeeds_example :
    (terminate_uhost fading "uhost-1" "cn-bj2-02" (at_zero whole_cluster (running_at 0))).0 ≡ ok tt
terminate_uhost-Succeeds_example =
    terminate_uhost-Succeeds fading "uhost-1" "cn-bj2-02" (at_zero whole_cluster (running_at 0))
      {V = IsOff} {G = IsGone} {stop_delay = 0} {gone_delay = 0} {latency = 1} {slack = 0}
      (host_in "Running") [] fading-IsClock refl refl refl refl (fading-Cooperates whole_cluster 2)
      (omega arith) (omega arith)

-- The VPC is there, the subnet is not.
abbrev half_made : State ℕ
half_made =
    at_zero
      (record new_cluster {
        status = record (new_cluster.status) {
          network = record (new_cluster.status.network) {
            vpc = record (new_cluster.status.network.vpc) { vpc_id = "vpc-user" };
          };
        };
      })
      0

reconcile_subnet-creates_example : reconcile_subnet idle cluster_scope half_made ≡ (
  ok tt,
  with_subnet idle cluster_scope half_made
      (record {
        subnet_name = "cluster-api-demo-subnet";
        subnet = "10.0.1.0";
        netmask = "24";
        subnet_id = "subnet-new";
      })
      (after_call idle
        (make_call idle cluster_scope half_made "10.0.1.0" "24")
        (after_call idle (look_call idle cluster_scope half_made) half_made)),
)
unfolding split
reconcile_subnet-creates_example =
    reconcile_subnet-creates idle cluster_scope half_made "10.0.1.0" "24" []
      (record { unset = refl; has_vpc = refl; answered = refl; absent = tt }) refl refl

-- The same with a block that has no mask.
abbrev maskless : State ℕ
maskless = record half_made {
  ucloud_cluster = record (half_made.ucloud_cluster) {
    spec = record (new_cluster.spec) {
      network = record (new_cluster.spec.network) {
        subnet = record (new_cluster.spec.network.subnet) { cidr_block = "10.0.1.0" };
      };
    };
  };
}

reconcile_subnet-panics_example :
    reconcile_subnet idle cluster_scope maskless
    ≡ (panic "index out of range", after_call idle (look_call idle cluster_scope maskless) maskless)
unfolding split
reconcile_subnet-panics_example =
    reconcile_subnet-panics idle cluster_scope maskless "10.0.1.0"
      (record { unset = refl; has_vpc = refl; answered = refl; absent = tt }) refl

-- UCloud answers every call with an error.
abbrev down : Environment
down =
    environment_over ℕ
      (λ c w.
        (record { body = body [] [] c; ret_code = pos 1; error = some (errorf "down" []) }, suc w))
      (λ w. w) (λ w. suc w) (λ d w. w + d)

reconcile_delete-returned_example :
    (reconcile_delete down cluster_scope machine_scope with_id).1.ucloud_machine
    ≡ with_id.ucloud_machine
unfolding reconcile_delete instance_if_exists look_for_id with_cluster on_cluster request call
    wrapping ◌>>=◌
reconcile_delete-returned_example =
    reconcile_delete-returned down cluster_scope machine_scope with_id refl
