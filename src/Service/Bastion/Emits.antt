-- ===== src/Service/Bastion/Emits.antt =====
-- What `CreateBastionInstance` and `CreateCAPUCluster` send and write.
use cluster_api_provider_ucl.Prelude.{
  String, Option, none, some, is_empty, find_first, inl, inr, ◌⊎◌, get_elem?,
}
use cluster_api_provider_ucl.Go.{pure, crash}
use cluster_api_provider_ucl.Go.Keeps.{
  Keeps, Keeps-pure, Keeps-fail, Keeps-crash, Keeps-if, Keeps-bind, Keeps-wrapping, Keeps-option,
}
use cluster_api_provider_ucl.Api.Network.{Instance}
use cluster_api_provider_ucl.Api.Cluster.{UcloudCluster}
use cluster_api_provider_ucl.Defaults.{region_zones, region_image}
use cluster_api_provider_ucl.Cloud.{
  Environment, DescribeUhostInstanceRequest, CreateUhostInstanceRequest, describe_uhost_instance,
  create_uhost_instance, create_capu_cluster, CreateCapuClusterRequest,
}
use cluster_api_provider_ucl.Scope.{ClusterScope, Event, called, posted, Op}
use cluster_api_provider_ucl.Scope.Cluster
use cluster_api_provider_ucl.Service.Emits.{
  Emits, Keeps-with_cluster, Keeps-update_cluster, Keeps-first, Keeps-request,
}
use cluster_api_provider_ucl.Service.Request.Emits.{Keeps-do_request, Keeps-common_base}
use cluster_api_provider_ucl.Service.Instance.{choose_zone, decoded, password}
use cluster_api_provider_ucl.Service.Bastion.{unless_there, create_bastion_instance}
use cluster_api_provider_ucl.Service.Capu.{create_capu_cluster_for}

-- `I` reads neither the bastion nor the UK8S cluster in the status.
pub record IgnoresHosts (I : UcloudCluster → Type 0) : Type 0 where
  pub bastion_free :
      (b : Option Instance) (c : UcloudCluster)
      → I c
      → I (record c { status = record (c.status) { bastion = b } })
  pub cluster_free :
      (id : String) (c : UcloudCluster)
      → I c
      → I (record c { status = record (c.status) { cluster_id = id } })

module _ (E : Environment) {I : UcloudCluster → Type 0} {Q : Event → Type 0} where
  Keeps-nth :
      {A : Type 0} (o : Option A)
      → Keeps {A = A}
          (Emits {W = E.World} I Q)
          (elim o [ some x ↦ pure x | none ↦ crash "index out of range" ])
  Keeps-nth none = Keeps-crash _
  Keeps-nth (some x) = Keeps-pure x

  Keeps-choose_zone : (region zone : String) → Keeps (Emits I Q) (choose_zone E region zone)
  unfolding choose_zone
  Keeps-choose_zone region zone =
      Keeps-if (is_empty zone) _ _
        (λ _.
          Keeps-option (region_zones region) _ _
            (λ zones.
              Keeps-bind _ _ (record { at = λ s h. record { object = h.object; sent = h.sent } })
                (λ i. Keeps-nth (get_elem? zones i)))
            (Keeps-fail _))
        (λ _. Keeps-pure zone)

  Keeps-decoded :
      {A B C : Type 0} (f : A → Op E C) (g : B → Op E C) (d : A ⊎ B)
      → ((a : A) → Keeps (Emits I Q) (f a))
      → ((b : B) → Keeps (Emits I Q) (g b))
      → Keeps (Emits I Q) (decoded f g d)
  Keeps-decoded f g (inl a) kf kg = kf a
  Keeps-decoded f g (inr b) kf kg = kg b

  Keeps-password : (sc : ClusterScope) (pass : String) → Keeps (Emits I Q) (password E sc pass)
  unfolding password
  Keeps-password sc pass =
      Keeps-if (is_empty pass) _ _ (λ _. Keeps-fail _)
        (λ _. Keeps-decoded _ _ _ Keeps-pure (λ e. Keeps-fail _))

module _ (E : Environment) (sc : ClusterScope) {I : UcloudCluster → Type 0} {Q : Event → Type 0}
    (describes : (r : DescribeUhostInstanceRequest) → Q (called (describe_uhost_instance r)))
    (ignores : IgnoresHosts I) where
  Keeps-unless_there :
      (o : Option Instance) (m : Op E Unit)
      → Keeps (Emits I Q) m
      → Keeps (Emits I Q) (unless_there E sc o m)
  unfolding unless_there
  Keeps-unless_there none m kept = kept
  Keeps-unless_there (some b) m kept = Keeps-pure tt

  pub Keeps-create_bastion_instance :
      ((r : CreateUhostInstanceRequest) → Q (called (create_uhost_instance r)))
      → Keeps (Emits I Q) (create_bastion_instance E sc)
  unfolding create_bastion_instance
  Keeps-create_bastion_instance creates = Keeps-with_cluster _ (λ c i.
      Keeps-if (is_empty c.spec.bastion.ssh_password) _ _ (λ _. Keeps-pure tt)
        (λ _. Keeps-unless_there c.status.bastion _ (
          Keeps-bind _ _ (Keeps-request E _ (describe_uhost_instance _) (describes _)) (λ hosts.
            Keeps-option (find_first _ hosts) _ _ (λ h. Keeps-pure tt)
              (Keeps-bind _ _ (Keeps-choose_zone E _ _) (λ zone.
                Keeps-if (is_empty (region_image (Cluster.region c) zone)) _ _ (λ _. Keeps-fail _)
                  (λ _. Keeps-bind _ _ (Keeps-password E sc _) (λ pass.
                    Keeps-bind _ _ (Keeps-request E _ (create_uhost_instance _) (creates _)) (λ ids.
                      Keeps-bind _ _
                        (Keeps-bind _ _
                          (Keeps-request E _ (describe_uhost_instance _) (describes _)) Keeps-first)
                        (λ host. Keeps-update_cluster _ (λ d. ignores.bastion_free _ d)))))))))))

  pub Keeps-create_capu_cluster_for :
      ((r : CreateCapuClusterRequest) → Q (posted (create_capu_cluster r)))
      → Keeps (Emits I Q) (create_capu_cluster_for E sc)
  unfolding create_capu_cluster_for
  Keeps-create_capu_cluster_for posts = Keeps-with_cluster _ (λ c i.
      Keeps-if (is_empty c.status.cluster_id) _ _
        (λ _. Keeps-bind _ _ (Keeps-common_base E _ c) (λ base.
          Keeps-bind _ _ (Keeps-first sc.cluster.pod_cidr_blocks) (λ pods.
            Keeps-bind _ _ (Keeps-first sc.cluster.service_cidr_blocks) (λ services.
              Keeps-bind _ _
                (Keeps-wrapping _ _ _ (Keeps-do_request E sc (create_capu_cluster _) _ (posts _)))
                (λ res. Keeps-update_cluster _ (λ d. ignores.cluster_free _ d))))))
        (λ _. Keeps-pure tt))
