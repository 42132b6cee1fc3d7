-- ===== src/Tests/Outcomes.antt =====
-- The theorems on whole reconciliations, on hosts, on the webhook and on the manager at concrete
-- inputs.
use cluster_api_provider_ucl.Prelude.{
  ◌≢◌, Option, suc, ℕ, ◌≡◌, ◌≤◌, ◌+◌, ◌↔◌, refl, String, true, false, inl, none, some, List, [],
  ◌∷◌, All, ◌==◌, length, arith, lookup,
}
use cluster_api_provider_ucl.Go.{Error, errorf, panic, ok, wrapping, ◌>>=◌}
use cluster_api_provider_ucl.Api.Cluster.{UcloudCluster}
use cluster_api_provider_ucl.Api.Machine.{UcloudMachine}
use cluster_api_provider_ucl.Cloud.{
  Environment, UhostInstanceSet, CreateUhostInstanceRequest, UlbBackendSet,
}
use cluster_api_provider_ucl.Defaults.{region_zones}
use cluster_api_provider_ucl.Scope.{with_cluster, update_cluster, request, call}
use cluster_api_provider_ucl.Scope.Cluster.{patch_object}
use cluster_api_provider_ucl.Service.Request.{get_zones}
use cluster_api_provider_ucl.Service.Group.{reconcile_ugroup}
use cluster_api_provider_ucl.Service.Vpc.{reconcile_vpc}
use cluster_api_provider_ucl.Service.Subnet.{reconcile_subnet}
use cluster_api_provider_ucl.Service.Nat.{reconcile_nat}
use cluster_api_provider_ucl.Service.Ulb.{reconcile_ulb}
use cluster_api_provider_ucl.Service.Bastion.{create_bastion_instance}
use cluster_api_provider_ucl.Service.Capu.{create_capu_cluster_for}
use cluster_api_provider_ucl.Service.Instance.{launch, create_request}
use cluster_api_provider_ucl.Service.Instance.Succeeds.{launch-Succeeds}
use cluster_api_provider_ucl.Service.Wait.{no_rounds, state_is}
use cluster_api_provider_ucl.Service.Backend.{add_real_server, del_real_server}
use cluster_api_provider_ucl.Service.Backend.Balancer.{Implements, join, leave_out}
use cluster_api_provider_ucl.Service.Backend.Joins.{add_real_server-join, del_real_server-leave_out}
use cluster_api_provider_ucl.Service.Terminate.{terminate_uhost}
use cluster_api_provider_ucl.Service.Terminate.Sends.{length-terminate_uhost}
use cluster_api_provider_ucl.Controller.Cluster.{
  step, add_mark, announce, publish, reconcile_resources, reconcile, reconcile_either,
}
use cluster_api_provider_ucl.Controller.Cluster.Ready.{IsReady, reconcile-IsReady}
use cluster_api_provider_ucl.Controller.Cluster.Served.{
  IsGentle, IsServed, reconcile-IsGentle, reconcile_either-IsServed,
}
use cluster_api_provider_ucl.Webhook.{accepted, validate_update}
use cluster_api_provider_ucl.Webhook.Accepts.{may_change, validate_update-accepted}
use cluster_api_provider_ucl.Manager.{Process, Step, add_healthz_check, default_flags, main}
use cluster_api_provider_ucl.Manager.Serves.{Ran, plan, main-Ran}
use cluster_api_provider_ucl.Tests.Samples.{
  new_cluster, whole_cluster, cluster_scope, machine_scope, ucloud_machine, host_in, at_zero,
}
use cluster_api_provider_ucl.Tests.World.{environment, environment-IsClock}
use cluster_api_provider_ucl.Tests.Balancer.{balancer, balancer-IsBalancer}
use cluster_api_provider_ucl.Tests.Fields.{machinery, machinery-ComparesFields}

abbrev idle : Environment
idle = environment [] []

-- The load balancer has its address, the bastion runs, and UK8S knows the cluster.
abbrev reachable : UcloudCluster
reachable = record whole_cluster {
  status = record (whole_cluster.status) {
    cluster_id = "uk8s-1";
    network = record (whole_cluster.status.network) {
      ulb = record (whole_cluster.status.network.ulb) {
        eip = record (whole_cluster.status.network.ulb.eip) { eip_addr = "106.75.0.9" };
      };
    };
    bastion = some (record {
      instance_id = "uhost-b";
      private_ip = "10.0.1.2";
      public_ip = "106.75.0.2";
      instance_type = "uhost";
      zone = "cn-bj2-02";
      name = "bastion";
    });
  };
}

reconcile-IsReady_example :
    IsReady (reconcile idle cluster_scope (at_zero reachable 0)).1.ucloud_cluster
unfolding reconcile add_mark patch_object request call reconcile_resources step with_cluster
    update_cluster wrapping reconcile_ugroup reconcile_vpc reconcile_subnet reconcile_nat
    reconcile_ulb publish announce get_zones create_bastion_instance create_capu_cluster_for
    region_zones ◌>>=◌
reconcile-IsReady_example = reconcile-IsReady idle cluster_scope (at_zero reachable 0) refl

reconcile-IsGentle_example :
    All IsGentle (reconcile idle cluster_scope (at_zero new_cluster 0)).1.events
reconcile-IsGentle_example = reconcile-IsGentle idle cluster_scope (at_zero new_cluster 0) tt

reconcile_either-IsServed_example :
    IsServed (reconcile_either idle cluster_scope (at_zero reachable 0)).1.ucloud_cluster
reconcile_either-IsServed_example =
    reconcile_either-IsServed idle cluster_scope (at_zero reachable 0) (inl refl)

-- A host that runs.
abbrev running : Environment
running = environment (host_in "Running" ∷ []) []

abbrev host_request : CreateUhostInstanceRequest
host_request =
    create_request running cluster_scope machine_scope ucloud_machine whole_cluster "cn-bj2-02"
      "uimage-kdwczn" "pass" "#cloud-config"

launch-Succeeds_example :
    (host : UhostInstanceSet) × ((launch running cluster_scope whole_cluster host_request
        (at_zero whole_cluster 0)).0
      ≡ ok host)
    × ((host.state == "Running") ≡ true)
unfolding state_is
launch-Succeeds_example =
    launch-Succeeds running cluster_scope whole_cluster host_request {V = λ w. Unit} {ready_at = 0}
      {latency = 1} (at_zero whole_cluster 0) "uhost-1" []
      (environment-IsClock (host_in "Running" ∷ []) []) refl refl tt
      (record {
        asked = λ w v. tt;
        slept = λ w v. tt;
        answers = λ w v. refl;
        quick = λ w v. omega arith;
        whole = λ w why v p. cc;
        passes = λ w v le. (host_in "Running", refl);
      })
      (omega arith)

-- One control plane host is behind the balancer already.
abbrev one_server : List UlbBackendSet
one_server = record { backend_id = "backend-0"; resource_id = "uhost-0" } ∷ []

add_real_server-join_example :
    Implements balancer
      (λ w. w)
      (join "uhost-1")
      one_server
      (add_real_server balancer "uhost-1" (at_zero whole_cluster one_server))
add_real_server-join_example =
    add_real_server-join balancer (λ w. w) (at_zero whole_cluster one_server)
      (balancer-IsBalancer whole_cluster) (refl, tt, tt) "uhost-1"

del_real_server-leave_out_example :
    Implements balancer
      (λ w. w)
      (leave_out "uhost-0")
      one_server
      (del_real_server balancer "uhost-0" (at_zero whole_cluster one_server))
del_real_server-leave_out_example =
    del_real_server-leave_out balancer (λ w. w) (at_zero whole_cluster one_server)
      (balancer-IsBalancer whole_cluster) (refl, tt, tt) "uhost-0"

length-terminate_uhost_example :
    ((terminate_uhost running "uhost-1" "cn-bj2-02" (at_zero whole_cluster 0)).0 ≢ panic no_rounds)
    × (length (terminate_uhost running "uhost-1" "cn-bj2-02" (at_zero whole_cluster 0)).1.events
        ≤ 0 + 65)
length-terminate_uhost_example =
    length-terminate_uhost running (environment-IsClock (host_in "Running" ∷ []) []) "uhost-1"
      "cn-bj2-02" (at_zero whole_cluster 0)

-- The machine before its image was taken from the spec.
abbrev imaged : UcloudMachine
imaged = record ucloud_machine { spec = record (ucloud_machine.spec) { image_id = some "image-1" } }

validate_update-accepted_example : (validate_update machinery ucloud_machine imaged ≡ accepted) ↔ (
    (k : String)
    → may_change k ≡ false
    → lookup {V = String} k (("imageId", "image-1") ∷ [])
      ≡ lookup {V = String} k (("imageId", "") ∷ []))
validate_update-accepted_example =
    validate_update-accepted machinery ucloud_machine imaged machinery-ComparesFields (record {
      old_object = ("kind", "UCloudMachine") ∷ ("spec", "image-1") ∷ [];
      new_object = ("kind", "UCloudMachine") ∷ ("spec", "") ∷ [];
      old_spec = ("imageId", "image-1") ∷ [];
      new_spec = ("imageId", "") ∷ [];
      old_converts = refl;
      new_converts = refl;
      old_has_spec = refl;
      new_has_spec = refl;
    })

abbrev fresh : Process ℕ
fresh = record { world = 0; taken = [] }

-- The answers of a process whose second check cannot be added.
abbrev refusing : Step → ℕ → Option Error × ℕ
refusing add_healthz_check w = (some (errorf "unable to create health check" []), w)
refusing step w = (none, suc w)

main-Ran_example : Ran refusing (plan default_flags) fresh (main refusing default_flags fresh)
main-Ran_example = main-Ran refusing default_flags fresh
