-- ===== src/Controller/Cluster/Makes.antt =====
-- What the reconciliation of a cluster sends and writes.
use cluster_api_provider_ucl.Prelude.{List, String}
use cluster_api_provider_ucl.Go.Keeps.{
  Keeps, Keeps-pure, Keeps-fail, Keeps-bind, Keeps-wrapping, Keeps-option,
}
use cluster_api_provider_ucl.Api.Cluster.{UcloudCluster}
use cluster_api_provider_ucl.Defaults.{region_zones}
use cluster_api_provider_ucl.Cloud.{
  Environment, patch_cluster, DescribeUhostInstanceRequest, CreateUhostInstanceRequest,
  CreateCapuClusterRequest, describe_uhost_instance, create_uhost_instance, create_capu_cluster,
}
use cluster_api_provider_ucl.Scope.{ClusterScope, Event, called, posted}
use cluster_api_provider_ucl.Service.Emits.{Emits, Keeps-with_cluster, Keeps-update_cluster}
use cluster_api_provider_ucl.Service.Makes.{AllowsNetwork}
use cluster_api_provider_ucl.Service.Request.{get_zones}
use cluster_api_provider_ucl.Service.Bastion.Emits.{
  IgnoresHosts, Keeps-create_bastion_instance, Keeps-create_capu_cluster_for,
}
use cluster_api_provider_ucl.Controller.Finalizers.{set_finalizers}
use cluster_api_provider_ucl.Controller.Cluster.{
  reconcile_resources, set_ready, add_mark, announce, publish, reconcile,
}
use cluster_api_provider_ucl.Controller.Cluster.Emits.{Keeps-step, Keeps-patch_object}

-- `Q` allows what `reconcile` sends for a cluster with `I`.
pub record AllowsMaking (I : UcloudCluster → Type 0) (Q : Event → Type 0) : Type 0 where
  pub network : AllowsNetwork Q
  pub patches : (c : UcloudCluster) → I c → Q (called (patch_cluster c))
  pub describes : (r : DescribeUhostInstanceRequest) → Q (called (describe_uhost_instance r))
  pub makes_host : (r : CreateUhostInstanceRequest) → Q (called (create_uhost_instance r))
  pub makes_cluster : (r : CreateCapuClusterRequest) → Q (posted (create_capu_cluster r))

module _ (E : Environment) (sc : ClusterScope) {I : UcloudCluster → Type 0} {Q : Event → Type 0}
    (may : AllowsMaking I Q) (hosts : IgnoresHosts I) where
  Keeps-get_zones : Keeps (Emits I Q) (get_zones E)
  unfolding get_zones
  Keeps-get_zones =
      Keeps-with_cluster _
        (λ c i. Keeps-option (region_zones c.spec.region) _ _ Keeps-pure (Keeps-fail _))

  pub Keeps-announce :
      (c : UcloudCluster)
      → ((zones : List String) (d : UcloudCluster) → I d → I (set_ready zones d))
      → Keeps (Emits I Q) (announce E sc c)
  unfolding announce
  Keeps-announce c readied = Keeps-bind _ _ (Keeps-wrapping _ _ _ Keeps-get_zones) (λ zones.
      Keeps-bind _ _ (Keeps-update_cluster _ (readied zones)) (λ _.
        Keeps-bind _ _
          (Keeps-step E _ _ (Keeps-create_bastion_instance E sc may.describes hosts may.makes_host))
          (λ _.
            Keeps-bind _ _
              (Keeps-step E _ _
                (Keeps-create_capu_cluster_for E sc may.describes hosts may.makes_cluster))
              (λ _. Keeps-pure _))))

  -- `reconcile`, once the rest of it is known to keep `I`.
  pub Keeps-reconcile :
      Keeps (Emits I Q) (reconcile_resources E sc)
      → ((fs : List String) (c : UcloudCluster) → I c → I (set_finalizers fs c))
      → Keeps (Emits I Q) (publish E sc)
      → Keeps (Emits I Q) (reconcile E sc)
  unfolding reconcile add_mark
  Keeps-reconcile resources marks rest =
      Keeps-bind _ _ (Keeps-update_cluster _ (λ c i. marks _ c i)) (λ _.
        Keeps-bind _ _ (Keeps-patch_object E may.patches)
          (λ _. Keeps-bind _ _ resources (λ _. rest)))
