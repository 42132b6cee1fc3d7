-- ===== src/Controller/Cluster/Steady.antt =====
-- What `reconcile` does to a cluster whose resources exist.
use cluster_api_provider_ucl.Prelude.{◌≡◌, refl, String, false, is_empty}
use cluster_api_provider_ucl.Go.{ok, wrapping, ◌>>=◌}
use cluster_api_provider_ucl.Api.Cluster.{UcloudCluster}
use cluster_api_provider_ucl.Cloud.{Environment}
use cluster_api_provider_ucl.Scope.{ClusterScope, State, Op, with_cluster}
use cluster_api_provider_ucl.Service.Group.{reconcile_ugroup}
use cluster_api_provider_ucl.Service.Vpc.{reconcile_vpc}
use cluster_api_provider_ucl.Service.Subnet.{reconcile_subnet}
use cluster_api_provider_ucl.Service.Nat.{reconcile_nat}
use cluster_api_provider_ucl.Service.Ulb.{reconcile_ulb}
use cluster_api_provider_ucl.Controller.Cluster.{step, reconcile_resources}

-- The cluster's status names each of the five resources.
pub record HasResources (c : UcloudCluster) : Type 0 where
  pub has_group : is_empty c.status.group.group_id ≡ false
  pub has_vpc : is_empty c.status.network.vpc.vpc_id ≡ false
  pub has_subnet : is_empty c.status.network.subnet.subnet_id ≡ false
  pub has_nat : is_empty c.status.network.nat.nat_gateway_id ≡ false
  pub has_ulb : is_empty c.status.network.ulb.load_balancer_id ≡ false

module _ (E : Environment) (sc : ClusterScope) (s : State E.World) where
  step-idle : (format : String) (m : Op E Unit) → m s ≡ (ok tt, s) → step E format m s ≡ (ok tt, s)
  unfolding step with_cluster wrapping
  step-idle format m e = rw e refl

  bind-idle :
      (m n : Op E Unit) → m s ≡ (ok tt, s) → n s ≡ (ok tt, s) → (m >>= λ _. n) s ≡ (ok tt, s)
  unfolding ◌>>=◌
  bind-idle m n p q = rw p q

  pub ugroup-idle :
      is_empty s.ucloud_cluster.status.group.group_id ≡ false → reconcile_ugroup E sc s ≡ (ok tt, s)
  unfolding reconcile_ugroup with_cluster ◌>>=◌
  ugroup-idle e = rw e refl

  pub vpc-idle :
      is_empty s.ucloud_cluster.status.network.vpc.vpc_id ≡ false
      → reconcile_vpc E sc s ≡ (ok tt, s)
  unfolding reconcile_vpc with_cluster ◌>>=◌
  vpc-idle e = rw e refl

  pub subnet-idle :
      is_empty s.ucloud_cluster.status.network.subnet.subnet_id ≡ false
      → reconcile_subnet E sc s ≡ (ok tt, s)
  unfolding reconcile_subnet with_cluster ◌>>=◌
  subnet-idle e = rw e refl

  pub nat-idle :
      is_empty s.ucloud_cluster.status.network.nat.nat_gateway_id ≡ false
      → reconcile_nat E s ≡ (ok tt, s)
  unfolding reconcile_nat with_cluster ◌>>=◌
  nat-idle e = rw e refl

  pub ulb-idle :
      is_empty s.ucloud_cluster.status.network.ulb.load_balancer_id ≡ false
      → reconcile_ulb E sc s ≡ (ok tt, s)
  unfolding reconcile_ulb with_cluster ◌>>=◌
  ulb-idle e = rw e refl

  pub reconcile_resources-HasResources :
      HasResources s.ucloud_cluster → reconcile_resources E sc s ≡ (ok tt, s)
  unfolding reconcile_resources
  reconcile_resources-HasResources h = bind-idle _ _ (step-idle _ _ (ugroup-idle h.has_group)) (
      bind-idle _ _ (step-idle _ _ (vpc-idle h.has_vpc)) (
        bind-idle _ _ (step-idle _ _ (subnet-idle h.has_subnet)) (
          bind-idle _ _ (step-idle _ _ (nat-idle h.has_nat)) (step-idle _ _ (ulb-idle h.has_ulb)))))
