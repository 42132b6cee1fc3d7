-- ===== src/Service/Group/Emits.antt =====
-- What the deletion of the business group sends.
use cluster_api_provider_ucl.Prelude.{is_empty}
use cluster_api_provider_ucl.Go.Keeps.{Keeps, Keeps-pure, Keeps-if, Keeps-bind, Keeps-wrapping}
use cluster_api_provider_ucl.Api.Cluster.{UcloudCluster}
use cluster_api_provider_ucl.Cloud.{Environment, Request, delete_business_group}
use cluster_api_provider_ucl.Scope.{ClusterScope, Event, posted}
use cluster_api_provider_ucl.Service.Emits.{Emits, Keeps-with_cluster}
use cluster_api_provider_ucl.Service.Request.Emits.{Keeps-do_request, Keeps-common_base}
use cluster_api_provider_ucl.Service.Group.{delete_group}

module _ (E : Environment) (sc : ClusterScope) {I : UcloudCluster → Type 0} {Q : Event → Type 0}
    (allows : (r : Request) → Q (posted r)) where
  pub Keeps-delete_group : Keeps (Emits I Q) (delete_group E sc)
  unfolding delete_group
  Keeps-delete_group = Keeps-with_cluster _ (λ c i.
      Keeps-if (is_empty c.status.group.group_id) _ _ (λ _. Keeps-pure tt)
        (λ _. Keeps-bind _ _ (Keeps-common_base E _ c) (λ base.
          Keeps-bind _ _
            (Keeps-wrapping _ _ _ (Keeps-do_request E sc (delete_business_group _) _ (allows _)))
            (λ _. Keeps-pure tt))))
