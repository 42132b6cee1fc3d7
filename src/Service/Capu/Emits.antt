-- ===== src/Service/Capu/Emits.antt =====
-- What the deletion of the UK8S cluster sends.
use cluster_api_provider_ucl.Prelude.{is_empty}
use cluster_api_provider_ucl.Go.Keeps.{Keeps, Keeps-pure, Keeps-if, Keeps-bind, Keeps-wrapping}
use cluster_api_provider_ucl.Api.Cluster.{UcloudCluster}
use cluster_api_provider_ucl.Cloud.{Environment, Request, delete_capu_cluster}
use cluster_api_provider_ucl.Scope.{ClusterScope, Event, posted}
use cluster_api_provider_ucl.Service.Emits.{Emits, Keeps-with_cluster}
use cluster_api_provider_ucl.Service.Request.Emits.{Keeps-do_request, Keeps-common_base}
use cluster_api_provider_ucl.Service.Capu.{delete_capu_cluster_for}

module _ (E : Environment) (sc : ClusterScope) {I : UcloudCluster → Type 0} {Q : Event → Type 0}
    (allows : (r : Request) → Q (posted r)) where
  pub Keeps-delete_capu_cluster_for : Keeps (Emits I Q) (delete_capu_cluster_for E sc)
  unfolding delete_capu_cluster_for
  Keeps-delete_capu_cluster_for = Keeps-with_cluster _ (λ c i.
      Keeps-if (is_empty c.status.cluster_id) _ _ (λ _. Keeps-pure tt)
        (λ _. Keeps-bind _ _ (Keeps-common_base E _ c) (λ base.
          Keeps-bind _ _
            (Keeps-wrapping _ _ _ (Keeps-do_request E sc (delete_capu_cluster _) _ (allows _)))
            (λ _. Keeps-pure tt))))
