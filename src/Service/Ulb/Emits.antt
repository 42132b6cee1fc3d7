-- ===== src/Service/Ulb/Emits.antt =====
-- What the deletion of the cluster's load balancer sends.
use cluster_api_provider_ucl.Prelude.{is_empty, ◌==◌}
use cluster_api_provider_ucl.Go.Keeps.{Keeps, Keeps-pure, Keeps-if}
use cluster_api_provider_ucl.Api.Cluster.{UcloudCluster}
use cluster_api_provider_ucl.Cloud.{Environment, DeleteUlbRequest, delete_ulb as delete_ulb_call}
use cluster_api_provider_ucl.Scope.{Event, called}
use cluster_api_provider_ucl.Service.Emits.{Emits, Keeps-with_cluster, Keeps-request_but}
use cluster_api_provider_ucl.Service.Ulb.{delete_ulb, delete_ulb_by_id}

module _ (E : Environment) {I : UcloudCluster → Type 0} {Q : Event → Type 0}
    (allows : (r : DeleteUlbRequest) → Q (called (delete_ulb_call r))) where
  pub Keeps-delete_ulb : Keeps (Emits I Q) (delete_ulb E)
  unfolding delete_ulb delete_ulb_by_id
  Keeps-delete_ulb = Keeps-with_cluster _ (λ c i.
      Keeps-if (is_empty c.status.network.ulb.load_balancer_id) _ _ (λ _. Keeps-pure tt)
        (λ _.
          Keeps-if (c.spec.network.ulb.load_balancer_id == c.status.network.ulb.load_balancer_id) _
            _ (λ _. Keeps-pure tt)
            (λ _.
              Keeps-with_cluster _
                (λ d _. Keeps-request_but E _ _ (delete_ulb_call _) (allows _)))))
