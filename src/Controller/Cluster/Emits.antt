-- ===== src/Controller/Cluster/Emits.antt =====
-- What the steps of `reconcile` and of `reconcileDelete` send and write.
use cluster_api_provider_ucl.Prelude.{◌≡◌, refl, List, String, Bool, true, false, is_empty, ◌==◌}
use cluster_api_provider_ucl.Go.Keeps.{Keeps, Keeps-pure, Keeps-if, Keeps-bind, Keeps-wrapping}
use cluster_api_provider_ucl.Api.Cluster.{UcloudCluster}
use cluster_api_provider_ucl.Cloud.{
  Environment, patch_cluster, delete_vpc as delete_vpc_call, delete_subnet as delete_subnet_call,
  delete_natgw, get_ucloud_machine, DeleteVpcRequest, DeleteSubnetRequest, DeleteNatgwRequest,
}
use cluster_api_provider_ucl.Scope.{ClusterScope, Event, called, Op}
use cluster_api_provider_ucl.Scope.Cluster.{patch_object}
use cluster_api_provider_ucl.Service.Emits.{
  Emits, Keeps-with_cluster, Keeps-update_cluster, Keeps-request, Keeps-request_but,
}
use cluster_api_provider_ucl.Service.Makes.{
  AllowsNetwork, IgnoresNetwork, Keeps-reconcile_ugroup, Keeps-reconcile_vpc,
  Keeps-reconcile_subnet, Keeps-reconcile_nat, Keeps-reconcile_ulb,
}
use cluster_api_provider_ucl.Service.Vpc.{delete_vpc}
use cluster_api_provider_ucl.Service.Subnet.{delete_subnet}
use cluster_api_provider_ucl.Service.Nat.{delete_nat}
use cluster_api_provider_ucl.Service.Ulb.Emits.{Keeps-delete_ulb}
use cluster_api_provider_ucl.Service.Group.Emits.{Keeps-delete_group}
use cluster_api_provider_ucl.Service.Capu.Emits.{Keeps-delete_capu_cluster_for}
use cluster_api_provider_ucl.Service.Terminate.{forget_bastion}
use cluster_api_provider_ucl.Service.Terminate.Emits.{
  AllowsHosts, Keeps-terminate_bastion, Keeps-clean_resource_in_group,
}
use cluster_api_provider_ucl.Controller.Finalizers.{set_finalizers}
use cluster_api_provider_ucl.Controller.Finalizers.Emits.{Keeps-machines_gone}
use cluster_api_provider_ucl.Controller.Cluster.{
  step, drop_mark, reconcile_resources, delete_resources, finish_delete, reconcile_delete,
}

module _ (E : Environment) {I : UcloudCluster → Type 0} {Q : Event → Type 0} where
  pub Keeps-step :
      (format : String) (m : Op E Unit) → Keeps (Emits I Q) m → Keeps (Emits I Q) (step E format m)
  unfolding step
  Keeps-step format m k = Keeps-with_cluster _ (λ c i. Keeps-wrapping format _ m k)

  pub Keeps-patch_object :
      ((c : UcloudCluster) → I c → Q (called (patch_cluster c)))
      → Keeps (Emits I Q) (patch_object E)
  unfolding patch_object
  Keeps-patch_object patches = record {
    at = λ s h. (Keeps-request E _ (patch_cluster s.ucloud_cluster) (patches _ h.object)).at s h;
  }

module _ (E : Environment) (sc : ClusterScope) {I : UcloudCluster → Type 0}
    {Q : Event → Type 0} where
  pub Keeps-reconcile_resources :
      AllowsNetwork Q → IgnoresNetwork I → Keeps (Emits I Q) (reconcile_resources E sc)
  unfolding reconcile_resources
  Keeps-reconcile_resources may ignores =
      Keeps-bind _ _ (Keeps-step E _ _ (Keeps-reconcile_ugroup E sc may ignores.group_free)) (λ _.
        Keeps-bind _ _
          (Keeps-step E _ _ (Keeps-reconcile_vpc E sc may (λ v c. ignores.network_free _ c)))
          (λ _.
            Keeps-bind _ _
              (Keeps-step E _ _ (Keeps-reconcile_subnet E sc may (λ v c. ignores.network_free _ c)))
              (λ _.
                Keeps-bind _ _
                  (Keeps-step E _ _
                    (Keeps-reconcile_nat E sc may (λ f v c. ignores.network_free _ c)))
                  (λ _.
                    Keeps-step E _ _
                      (Keeps-reconcile_ulb E sc may (λ v c. ignores.network_free _ c))))))

-- `Q` allows the deletion of a cluster with `I`, which spares what the spec names.
pub record AllowsTeardown (E : Environment) (I : UcloudCluster → Type 0) (Q : Event → Type 0)
    : Type 0 where
  pub hosts : AllowsHosts Q
  pub looks_up : (namespace name : String) → Q (called (get_ucloud_machine namespace name))
  pub vpc :
      (c : UcloudCluster) (r : DeleteVpcRequest)
      → I c
      → (c.spec.network.vpc.vpc_id == r.vpc_id) ≡ false
      → Q (called (delete_vpc_call r))
  pub subnet :
      (c : UcloudCluster) (r : DeleteSubnetRequest)
      → I c
      → (c.spec.network.subnet.subnet_id == r.subnet_id) ≡ false
      → Q (called (delete_subnet_call r))
  pub nat :
      (c : UcloudCluster) (r : DeleteNatgwRequest)
      → I c
      → (c.spec.network.nat.nat_gateway.nat_gateway_id == r.natgw_id) ≡ false
      → Q (called (delete_natgw r))
  pub forgets : (c : UcloudCluster) → I c → I (forget_bastion E c)

-- Is the event a patch of the cluster's object?
abbrev pub is_patch : Event → Bool
is_patch (called (patch_cluster c)) = true
is_patch _ = false

-- The making of a network, where nothing is asked of what is sent but of patches.
pub any_network : {Q : Event → Type 0} → ((e : Event) → is_patch e ≡ false → Q e) → AllowsNetwork Q
any_network all = record {
  lists_groups = λ r. all _ refl;
  makes_group = λ r. all _ refl;
  reads_vpc = λ r. all _ refl;
  makes_vpc = λ r. all _ refl;
  reads_subnet = λ r. all _ refl;
  makes_subnet = λ r. all _ refl;
  reads_natgw = λ r. all _ refl;
  makes_natgw = λ r. all _ refl;
  reads_firewall = λ r. all _ refl;
  makes_eip = λ r. all _ refl;
  binds_eip = λ r. all _ refl;
  reads_ulb = λ r. all _ refl;
  makes_ulb = λ r. all _ refl;
  makes_vserver = λ r. all _ refl;
}

-- A deletion, where nothing is asked of what is sent but of patches.
pub any_teardown :
    {E : Environment} {I : UcloudCluster → Type 0} {Q : Event → Type 0}
    → ((e : Event) → is_patch e ≡ false → Q e)
    → ((c : UcloudCluster) → I c → I (forget_bastion E c))
    → AllowsTeardown E I Q
any_teardown all forgets = record {
  hosts = record {
    describes = λ r. all _ refl;
    powers_off = λ r. all _ refl;
    terminates = λ r. all _ refl;
    deletes_ulb = λ r. all _ refl;
    posts = λ r. all _ refl;
  };
  looks_up = λ _ _. all _ refl;
  vpc = λ c r i other. all _ refl;
  subnet = λ c r i other. all _ refl;
  nat = λ c r i other. all _ refl;
  forgets = forgets;
}

module _ (E : Environment) (sc : ClusterScope) {I : UcloudCluster → Type 0} {Q : Event → Type 0}
    (may : AllowsTeardown E I Q) where
  Keeps-delete_vpc : Keeps (Emits I Q) (delete_vpc E)
  unfolding delete_vpc
  Keeps-delete_vpc = Keeps-with_cluster _ (λ c i.
      Keeps-if (is_empty c.status.network.vpc.vpc_id) _ _ (λ _. Keeps-pure tt)
        (λ _.
          Keeps-if (c.spec.network.vpc.vpc_id == c.status.network.vpc.vpc_id) _ _
            (λ _. Keeps-pure tt)
            (λ other. Keeps-request_but E _ _ (delete_vpc_call _) (may.vpc c _ i other))))

  Keeps-delete_subnet : Keeps (Emits I Q) (delete_subnet E)
  unfolding delete_subnet
  Keeps-delete_subnet = Keeps-with_cluster _ (λ c i.
      Keeps-if (is_empty c.status.network.subnet.subnet_id) _ _ (λ _. Keeps-pure tt)
        (λ _.
          Keeps-if (c.spec.network.subnet.subnet_id == c.status.network.subnet.subnet_id) _ _
            (λ _. Keeps-pure tt)
            (λ other. Keeps-request_but E _ _ (delete_subnet_call _) (may.subnet c _ i other))))

  Keeps-delete_nat : Keeps (Emits I Q) (delete_nat E)
  unfolding delete_nat
  Keeps-delete_nat = Keeps-with_cluster _ (λ c i.
      Keeps-if (is_empty c.status.network.nat.nat_gateway_id) _ _ (λ _. Keeps-pure tt)
        (λ _.
          Keeps-if
            (c.spec.network.nat.nat_gateway.nat_gateway_id == c.status.network.nat.nat_gateway_id) _
            _ (λ _. Keeps-pure tt)
            (λ other. Keeps-request_but E _ _ (delete_natgw _) (may.nat c _ i other))))

  pub Keeps-delete_resources : Keeps (Emits I Q) (delete_resources E sc)
  unfolding delete_resources
  Keeps-delete_resources =
      Keeps-bind _ _ (Keeps-step E _ _ (Keeps-terminate_bastion E may.hosts may.forgets)) (λ _.
        Keeps-bind _ _ (Keeps-step E _ _ (Keeps-delete_ulb E may.hosts.deletes_ulb)) (λ _.
          Keeps-bind _ _ (Keeps-step E _ _ Keeps-delete_nat) (λ _.
            Keeps-bind _ _ (Keeps-step E _ _ (Keeps-clean_resource_in_group E sc may.hosts)) (λ _.
              Keeps-bind _ _ (Keeps-step E _ _ Keeps-delete_subnet) (λ _.
                Keeps-bind _ _ (Keeps-step E _ _ Keeps-delete_vpc) (λ _.
                  Keeps-bind _ _ (Keeps-step E _ _ (Keeps-delete_group E sc may.hosts.posts)) (λ _.
                    Keeps-step E _ _ (Keeps-delete_capu_cluster_for E sc may.hosts.posts))))))))

  module _ (marks : (fs : List String) (c : UcloudCluster) → I c → I (set_finalizers fs c)) where
    Keeps-finish_delete : (gone : Bool) → Keeps (Emits I Q) (finish_delete E sc gone)
    unfolding finish_delete drop_mark
    Keeps-finish_delete false = Keeps-pure _
    Keeps-finish_delete true =
        Keeps-bind _ _ Keeps-delete_resources
          (λ _. Keeps-bind _ _ (Keeps-update_cluster _ (λ c i. marks _ c i)) (λ _. Keeps-pure _))

    pub Keeps-reconcile_delete : Keeps (Emits I Q) (reconcile_delete E sc)
    unfolding reconcile_delete
    Keeps-reconcile_delete =
        Keeps-bind _ _ (Keeps-machines_gone E sc may.looks_up (λ f slice c m. marks _ c))
          Keeps-finish_delete
