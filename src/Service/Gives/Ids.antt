-- ===== src/Service/Gives/Ids.antt =====
-- After each step of the cluster's reconciliation the status has the id of the step's resource.
use cluster_api_provider_ucl.Prelude.{
  ◌≡◌, refl, Bool, true, false, not, is_empty, String, List, [], ◌∷◌,
}
use cluster_api_provider_ucl.Go.{crash}
use cluster_api_provider_ucl.Go.Leads.{
  Leads, Leads-pure, Leads-fail, Leads-crash, Leads-if, Leads-bind, Leads-wrapping, Leads-any,
  Leads-from, Leads-fact, Leads-search,
}
use cluster_api_provider_ucl.Service.Ulb.Formatted.{Leads-formatted}
use cluster_api_provider_ucl.Cloud.{Environment}
use cluster_api_provider_ucl.Scope.{ClusterScope, State, Op}
use cluster_api_provider_ucl.Service.Gives.{
  IsId, GivesIds, Leads-request, Leads-do_request, Leads-with_cluster, Leads-update, Leads-first,
}
use cluster_api_provider_ucl.Service.Vpc.{reconcile_vpc}
use cluster_api_provider_ucl.Service.Group.{reconcile_ugroup}
use cluster_api_provider_ucl.Service.Subnet.{reconcile_subnet, cidr_parts}
use cluster_api_provider_ucl.Service.Nat.{reconcile_nat}
use cluster_api_provider_ucl.Service.Ulb.{reconcile_ulb}

not-true : (b : Bool) → not b ≡ true → b ≡ false
not-true true e = cc
not-true false e = refl

module _ (E : Environment) (sc : ClusterScope) (gives : GivesIds E sc) where
  abbrev pub GroupId : State E.World → Type 0
  GroupId s = IsId s.ucloud_cluster.status.group.group_id

  abbrev pub SubnetId : State E.World → Type 0
  SubnetId s = IsId s.ucloud_cluster.status.network.subnet.subnet_id

  abbrev pub NatId : State E.World → Type 0
  NatId s = IsId s.ucloud_cluster.status.network.nat.nat_gateway_id

  abbrev pub UlbId : State E.World → Type 0
  UlbId s = IsId s.ucloud_cluster.status.network.ulb.load_balancer_id

  abbrev pub VpcId : State E.World → Type 0
  VpcId s = IsId s.ucloud_cluster.status.network.vpc.vpc_id

  pub Leads-reconcile_vpc : Leads (λ _. Unit {0}) (reconcile_vpc E sc) (λ _. VpcId)
  unfolding reconcile_vpc
  Leads-reconcile_vpc = Leads-with_cluster _ (λ c.
      Leads-if (is_empty c.status.network.vpc.vpc_id) _ _
        (λ _.
          Leads-from _ (λ _ _. tt)
            (Leads-bind _ _
              (Leads-search _ _ (λ vpcs. vpcs) _ (Leads-request E _ _ _ (gives.lists_vpcs _))
                (Leads-bind _ _ (Leads-request E _ _ _ (gives.makes_vpc _))
                  (λ id. Leads-pure _ (λ s i. i))))
              (λ v. Leads-bind _ _ (Leads-first v.network) (λ cidr. Leads-update _ (λ s i. i)))))
        (λ e. Leads-pure tt (λ s same. rw same e)))

  pub Leads-reconcile_ugroup : Leads (λ _. Unit {0}) (reconcile_ugroup E sc) (λ _. GroupId)
  unfolding reconcile_ugroup
  Leads-reconcile_ugroup = Leads-with_cluster _ (λ c.
      Leads-if (is_empty c.status.group.group_id) _ _
        (λ _.
          Leads-from _ (λ _ _. tt)
            (Leads-bind _ _
              (Leads-bind _ _ (Leads-any _) (λ base.
                Leads-search _ _ (λ res. res.infos) _
                  (Leads-wrapping _ _ _ (Leads-do_request E sc _ _ (gives.lists_groups _)))
                  (Leads-bind _ _ (Leads-any _) (λ base'.
                    Leads-bind _ _
                      (Leads-wrapping _ _ _ (Leads-do_request E sc _ _ (gives.makes_group _)))
                      (λ res. Leads-pure _ (λ s i. i))))))
              (λ g. Leads-update _ (λ s i. i))))
        (λ e. Leads-pure tt (λ s same. rw same e)))

  Leads-cidr_parts :
      {A : Type 0} {P : State E.World → Type 0} {R : A → State E.World → Type 0}
      (pieces : List String) (found : String → String → Op E A) (why : String)
      → ((a m : String) → Leads P (found a m) R)
      → Leads P (cidr_parts pieces found (crash why)) R
  unfolding cidr_parts
  Leads-cidr_parts [] found why k = Leads-crash why
  Leads-cidr_parts (a ∷ []) found why k = Leads-crash why
  Leads-cidr_parts (a ∷ m ∷ rest) found why k = k a m

  pub Leads-reconcile_subnet : Leads (λ _. Unit {0}) (reconcile_subnet E sc) (λ _. SubnetId)
  unfolding reconcile_subnet
  Leads-reconcile_subnet = Leads-with_cluster _ (λ c.
      Leads-if (not (is_empty c.status.network.subnet.subnet_id)) _ _
        (λ e. Leads-pure tt (λ s same. rw same (not-true _ e)))
        (λ _.
          Leads-if (is_empty c.status.network.vpc.vpc_id) _ _ (λ _. Leads-fail _)
            (λ _.
              Leads-from _ (λ _ _. tt)
                (Leads-bind _ _
                  (Leads-search _ _ (λ subnets. subnets) _
                    (Leads-request E _ _ _ (gives.lists_subnets _))
                    (Leads-cidr_parts _ _ _ (λ a m.
                      Leads-bind _ _ (Leads-request E _ _ _ (gives.makes_subnet _))
                        (λ id. Leads-pure _ (λ s i. i)))))
                  (λ found. Leads-update _ (λ s i. i))))))

  pub Leads-reconcile_nat : Leads (λ _. Unit {0}) (reconcile_nat E) (λ _. NatId)
  unfolding reconcile_nat
  Leads-reconcile_nat = Leads-with_cluster _ (λ c.
      Leads-if (not (is_empty c.status.network.nat.nat_gateway_id)) _ _
        (λ e. Leads-pure tt (λ s same. rw same (not-true _ e)))
        (λ _.
          Leads-if (is_empty c.status.network.vpc.vpc_id) _ _ (λ _. Leads-fail _)
            (λ _.
              Leads-from _ (λ _ _. tt)
                (Leads-bind _ _
                  (Leads-search _ _ (λ gateways. gateways) _
                    (Leads-request E _ _ _ (gives.lists_gateways _))
                    (Leads-if (is_empty c.status.network.subnet.subnet_id) _ _ (λ _. Leads-fail _)
                      (λ _. Leads-bind _ _ (Leads-any _) (λ firewall.
                        Leads-bind _ _ (Leads-any _) (λ eip.
                          Leads-bind _ _ (Leads-request E _ _ _ (gives.makes_gateway _))
                            (λ id. Leads-pure _ (λ s i. i)))))))
                  (λ g. Leads-bind _ _ (Leads-update {R = NatId} _ (λ s i. i)) (λ _.
                    Leads-bind _ _ (Leads-first g.ip_set) (λ ip. Leads-update _ (λ s i. i))))))))

  pub Leads-reconcile_ulb : Leads (λ _. Unit {0}) (reconcile_ulb E sc) (λ _. UlbId)
  unfolding reconcile_ulb
  Leads-reconcile_ulb = Leads-with_cluster _ (λ c.
      Leads-if (not (is_empty c.status.network.ulb.load_balancer_id)) _ _
        (λ e. Leads-pure tt (λ s same. rw same (not-true _ e)))
        (λ _.
          Leads-if (is_empty c.status.network.vpc.vpc_id) _ _ (λ _. Leads-fail _)
            (λ _.
              Leads-from _ (λ _ _. tt)
                (Leads-bind _ _
                  (Leads-search _ _ (λ ulbs. ulbs) _
                    (Leads-request E _ _ _ (gives.lists_balancers _))
                    (Leads-bind _ _
                      (Leads-bind _ _ (Leads-any _) (λ base.
                        Leads-bind _ _
                          (Leads-formatted _ _ (Leads-do_request E sc _ _ (gives.makes_balancer _)))
                          (λ res. Leads-pure _ (λ s i. i))))
                      (λ ulb_id. Leads-fact _ (λ i. Leads-bind _ _ (Leads-any _) (λ eip.
                        Leads-bind _ _ (Leads-any _)
                          (λ _. Leads-bind _ _ (Leads-any _) (λ id. Leads-pure _ (λ s _. i))))))))
                  (λ u. Leads-bind _ _ (Leads-update {R = UlbId} _ (λ s i. i)) (λ _.
                    Leads-bind _ _ (Leads-first u.vserver_set) (λ v.
                      Leads-bind _ _ (Leads-update {R = UlbId} _ (λ s i. i)) (λ _.
                        Leads-bind _ _ (Leads-first u.ip_set)
                          (λ ip. Leads-update _ (λ s i. i))))))))))
