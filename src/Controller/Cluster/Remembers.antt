-- ===== src/Controller/Cluster/Remembers.antt =====
-- The ids that a cluster's status has, across its reconciliation.
use cluster_api_provider_ucl.Prelude.{
  ◌≡◌, ◌⊎◌, refl, sym, ap, ◌∙◌, Bool-cases, inl, inr, true, false, is_empty, String,
}
use cluster_api_provider_ucl.Go.{ok}
use cluster_api_provider_ucl.Go.Keeps.{Keeps, Keeps-bind}
use cluster_api_provider_ucl.Api.Cluster.{UcloudCluster}
use cluster_api_provider_ucl.Cloud.{Environment}
use cluster_api_provider_ucl.Scope.{ClusterScope, State, Event, Op}
use cluster_api_provider_ucl.Service.Emits.{Emits}
use cluster_api_provider_ucl.Service.Makes.{
  AllowsNetwork, Keeps-reconcile_ugroup, Keeps-reconcile_vpc, Keeps-reconcile_subnet,
  Keeps-reconcile_nat, Keeps-reconcile_ulb,
}
use cluster_api_provider_ucl.Service.Gives.{IsId}
use cluster_api_provider_ucl.Service.Group.{reconcile_ugroup}
use cluster_api_provider_ucl.Service.Vpc.{reconcile_vpc}
use cluster_api_provider_ucl.Service.Subnet.{reconcile_subnet}
use cluster_api_provider_ucl.Service.Nat.{reconcile_nat}
use cluster_api_provider_ucl.Service.Ulb.{reconcile_ulb}
use cluster_api_provider_ucl.Controller.Cluster.{reconcile_resources}
use cluster_api_provider_ucl.Controller.Cluster.Emits.{any_network, Keeps-step}
use cluster_api_provider_ucl.Controller.Cluster.Ready.{Anything, All-any}
use cluster_api_provider_ucl.Controller.Cluster.Steady.{
  ugroup-idle, vpc-idle, subnet-idle, nat-idle, ulb-idle,
}

abbrev pub group_id : UcloudCluster → String
group_id c = c.status.group.group_id

abbrev pub vpc_id : UcloudCluster → String
vpc_id c = c.status.network.vpc.vpc_id

abbrev pub subnet_id : UcloudCluster → String
subnet_id c = c.status.network.subnet.subnet_id

abbrev pub nat_id : UcloudCluster → String
nat_id c = c.status.network.nat.nat_gateway_id

abbrev pub ulb_id : UcloudCluster → String
ulb_id c = c.status.network.ulb.load_balancer_id

-- An id that was there before is there afterwards.
abbrev pub Kept : (UcloudCluster → String) → UcloudCluster → UcloudCluster → Type 0
Kept id before after = IsId (id before) → id after ≡ id before

-- There was no id, or it is there afterwards.
abbrev pub Recorded : (UcloudCluster → String) → UcloudCluster → UcloudCluster → Type 0
Recorded id before after = (is_empty (id before) ≡ true) ⊎ (id after ≡ id before)

pub recorded :
    (id : UcloudCluster → String) (before after : UcloudCluster)
    → Kept id before after
    → Recorded id before after
recorded id before after kept = elim (Bool-cases (is_empty (id before))) [
  | inl none_before ↦ inl none_before
  | inr i ↦ inr (kept i)
]

-- The five ids of the status.
pub record Remembers (before after : UcloudCluster) : Type 0 where
  pub group_kept : Recorded group_id before after
  pub vpc_kept : Recorded vpc_id before after
  pub subnet_kept : Recorded subnet_id before after
  pub nat_kept : Recorded nat_id before after
  pub ulb_kept : Recorded ulb_id before after

clash : {B : Type 0} → true ≡ false → B
clash p = cc

module _ (E : Environment) (sc : ClusterScope) {Q : Event → Type 0} (may : AllowsNetwork Q) where
  Keeps-five :
      (I : UcloudCluster → Type 0)
      → Keeps (Emits I Q) (reconcile_ugroup E sc)
      → Keeps (Emits I Q) (reconcile_vpc E sc)
      → Keeps (Emits I Q) (reconcile_subnet E sc)
      → Keeps (Emits I Q) (reconcile_nat E)
      → Keeps (Emits I Q) (reconcile_ulb E sc)
      → Keeps (Emits I Q) (reconcile_resources E sc)
  unfolding reconcile_resources
  Keeps-five I group vpc subnet nat ulb = Keeps-bind _ _ (Keeps-step E _ _ group) (λ _.
      Keeps-bind _ _ (Keeps-step E _ _ vpc) (λ _.
        Keeps-bind _ _ (Keeps-step E _ _ subnet)
          (λ _. Keeps-bind _ _ (Keeps-step E _ _ nat) (λ _. Keeps-step E _ _ ulb))))

  module _ (before : UcloudCluster) where
    -- A step that does nothing where its id is there, and whose writes are free where it was not.
    Keeps-own :
        (id : UcloudCluster → String) (m : Op E Unit)
        → ((s : State E.World) → IsId (id s.ucloud_cluster) → m s ≡ (ok tt, s))
        → (is_empty (id before) ≡ true → Keeps (Emits (Kept id before) Q) m)
        → Keeps (Emits (Kept id before) Q) m
    Keeps-own id m idle free = record {
      at = λ s h. elim (Bool-cases (is_empty (id before))) [
        | inl e ↦ (free e).at s h
        | inr i ↦ rw (idle s (ap is_empty (h.object i) ∙ i)) h
      ];
    }

    -- One proof for each id: its own step, and the four that write elsewhere.
    pub Keeps-group_id : Keeps (Emits (Kept group_id before) Q) (reconcile_resources E sc)
    Keeps-group_id =
        Keeps-five _
          (Keeps-own group_id _ (ugroup-idle E sc)
            (λ e. Keeps-reconcile_ugroup E sc may (λ g c k. λ i. clash (sym e ∙ i))))
          (Keeps-reconcile_vpc E sc may (λ v c k. k)) (Keeps-reconcile_subnet E sc may (λ v c k. k))
          (Keeps-reconcile_nat E sc may (λ f v c k. k)) (Keeps-reconcile_ulb E sc may (λ v c k. k))

    pub Keeps-vpc_id : Keeps (Emits (Kept vpc_id before) Q) (reconcile_resources E sc)
    Keeps-vpc_id =
        Keeps-five _ (Keeps-reconcile_ugroup E sc may (λ g c k. k))
          (Keeps-own vpc_id _ (vpc-idle E sc)
            (λ e. Keeps-reconcile_vpc E sc may (λ v c k. λ i. clash (sym e ∙ i))))
          (Keeps-reconcile_subnet E sc may (λ v c k. k))
          (Keeps-reconcile_nat E sc may (λ f v c k. k)) (Keeps-reconcile_ulb E sc may (λ v c k. k))

    pub Keeps-subnet_id : Keeps (Emits (Kept subnet_id before) Q) (reconcile_resources E sc)
    Keeps-subnet_id =
        Keeps-five _ (Keeps-reconcile_ugroup E sc may (λ g c k. k))
          (Keeps-reconcile_vpc E sc may (λ v c k. k))
          (Keeps-own subnet_id _ (subnet-idle E sc)
            (λ e. Keeps-reconcile_subnet E sc may (λ v c k. λ i. clash (sym e ∙ i))))
          (Keeps-reconcile_nat E sc may (λ f v c k. k)) (Keeps-reconcile_ulb E sc may (λ v c k. k))

    pub Keeps-nat_id : Keeps (Emits (Kept nat_id before) Q) (reconcile_resources E sc)
    Keeps-nat_id =
        Keeps-five _ (Keeps-reconcile_ugroup E sc may (λ g c k. k))
          (Keeps-reconcile_vpc E sc may (λ v c k. k)) (Keeps-reconcile_subnet E sc may (λ v c k. k))
          (Keeps-own nat_id _ (nat-idle E sc)
            (λ e. Keeps-reconcile_nat E sc may (λ f v c k. λ i. clash (sym e ∙ i))))
          (Keeps-reconcile_ulb E sc may (λ v c k. k))

    pub Keeps-ulb_id : Keeps (Emits (Kept ulb_id before) Q) (reconcile_resources E sc)
    Keeps-ulb_id =
        Keeps-five _ (Keeps-reconcile_ugroup E sc may (λ g c k. k))
          (Keeps-reconcile_vpc E sc may (λ v c k. k)) (Keeps-reconcile_subnet E sc may (λ v c k. k))
          (Keeps-reconcile_nat E sc may (λ f v c k. k))
          (Keeps-own ulb_id _ (ulb-idle E sc)
            (λ e. Keeps-reconcile_ulb E sc may (λ v c k. λ i. clash (sym e ∙ i))))

module _ (E : Environment) (sc : ClusterScope) where
  start :
      (id : UcloudCluster → String) (s : State E.World)
      → Emits {W = E.World} (Kept id s.ucloud_cluster) Anything s
  start id s = record { object = λ _. refl; sent = All-any _ }

  kept :
      (s : State E.World) (id : UcloudCluster → String)
      → Keeps (Emits (Kept id s.ucloud_cluster) Anything) (reconcile_resources E sc)
      → Recorded id s.ucloud_cluster (reconcile_resources E sc s).1.ucloud_cluster
  kept s id keeps =
      recorded id s.ucloud_cluster (reconcile_resources E sc s).1.ucloud_cluster
        (keeps.at s (start id s)).object

  -- Whether the five steps that make a cluster's resources succeed, fail or panic, each of the ids of
  -- the group, the VPC, the subnet, the NAT gateway and the load balancer that the status had before,
  -- not an empty text, is the same afterwards: no step forgets or replaces a resource, its own or
  -- another's.
  pub reconcile_resources-Remembers :
      (s : State E.World) → Remembers s.ucloud_cluster (reconcile_resources E sc s).1.ucloud_cluster
  reconcile_resources-Remembers s = record {
    group_kept = kept s group_id (Keeps-group_id E sc (any_network (λ e n. tt)) s.ucloud_cluster);
    vpc_kept = kept s vpc_id (Keeps-vpc_id E sc (any_network (λ e n. tt)) s.ucloud_cluster);
    subnet_kept =
        kept s subnet_id (Keeps-subnet_id E sc (any_network (λ e n. tt)) s.ucloud_cluster);
    nat_kept = kept s nat_id (Keeps-nat_id E sc (any_network (λ e n. tt)) s.ucloud_cluster);
    ulb_kept = kept s ulb_id (Keeps-ulb_id E sc (any_network (λ e n. tt)) s.ucloud_cluster);
  }
