-- ===== src/Controller/Cluster/Settles.antt =====
-- A reconciliation of the cluster's resources that succeeds, and the next one.
use cluster_api_provider_ucl.Prelude.{◌≡◌, String}
use cluster_api_provider_ucl.Go.{ok}
use cluster_api_provider_ucl.Go.Keeps.{Keeps}
use cluster_api_provider_ucl.Go.Leads.{Leads, Leads-bind, Leads-with, Leads-wrapping}
use cluster_api_provider_ucl.Api.Cluster.{UcloudCluster}
use cluster_api_provider_ucl.Cloud.{Environment}
use cluster_api_provider_ucl.Scope.{ClusterScope, State, Op, with_cluster}
use cluster_api_provider_ucl.Service.Emits.{Emits}
use cluster_api_provider_ucl.Service.Makes.{
  Keeps-reconcile_ugroup, Keeps-reconcile_vpc, Keeps-reconcile_subnet, Keeps-reconcile_nat,
  Keeps-reconcile_ulb,
}
use cluster_api_provider_ucl.Service.Gives.{IsId, GivesIds}
use cluster_api_provider_ucl.Service.Gives.Ids.{
  Leads-reconcile_ugroup, Leads-reconcile_vpc, Leads-reconcile_subnet, Leads-reconcile_nat,
  Leads-reconcile_ulb,
}
use cluster_api_provider_ucl.Controller.Cluster.{step, reconcile_resources}
use cluster_api_provider_ucl.Controller.Cluster.Ready.{Anything, All-any}
use cluster_api_provider_ucl.Controller.Cluster.Emits.{any_network}
use cluster_api_provider_ucl.Controller.Cluster.Remembers.{group_id, vpc_id, subnet_id, nat_id}
use cluster_api_provider_ucl.Controller.Cluster.Steady.{
  HasResources, reconcile_resources-HasResources,
}

module _ (E : Environment) (sc : ClusterScope) (gives : GivesIds E sc) where
  abbrev OnObject : (UcloudCluster → Type 0) → State E.World → Type 0
  OnObject I = Emits I Anything

  -- A step keeps what is there and adds its own id.
  Leads-step :
      {I J : UcloudCluster → Type 0} {R : State E.World → Type 0} (format : String) (m : Op E Unit)
      → Keeps (OnObject I) m
      → Leads (λ _. Unit {0}) m (λ _. R)
      → ((s : State E.World) → I s.ucloud_cluster → R s → J s.ucloud_cluster)
      → Leads (OnObject I) (step E format m) (λ _. OnObject J)
  unfolding step with_cluster
  Leads-step format m kept leads join = record {
    at = λ s a h e.
        let t = (Leads-wrapping format _ m (Leads-with m kept leads)).at s a h e in
        record { object = join _ t.0.object t.1; sent = All-any _ };
  }

  Leads-reconcile_resources :
      Leads (OnObject (λ _. Unit {0})) (reconcile_resources E sc) (λ _. OnObject HasResources)
  unfolding reconcile_resources
  Leads-reconcile_resources =
      Leads-bind _ _
        (Leads-step {J = λ c. IsId (group_id c)} _ _
          (Keeps-reconcile_ugroup E sc (any_network (λ e n. tt)) (λ g c i. i))
          (Leads-reconcile_ugroup E sc gives) (λ s i j. j))
        (λ _.
          Leads-bind _ _
            (Leads-step {J = λ c. IsId (group_id c) × IsId (vpc_id c)} _ _
              (Keeps-reconcile_vpc E sc (any_network (λ e n. tt)) (λ v c i. i))
              (Leads-reconcile_vpc E sc gives) (λ s i j. (i, j)))
            (λ _.
              Leads-bind _ _
                (Leads-step {J = λ c. (IsId (group_id c) × IsId (vpc_id c)) × IsId (subnet_id c)} _
                  _ (Keeps-reconcile_subnet E sc (any_network (λ e n. tt)) (λ v c i. i))
                  (Leads-reconcile_subnet E sc gives) (λ s i j. (i, j)))
                (λ _.
                  Leads-bind _ _
                    (Leads-step
                      {J = λ c.
                        ((IsId (group_id c) × IsId (vpc_id c)) × IsId (subnet_id c))
                        × IsId (nat_id c)}
                      _ _ (Keeps-reconcile_nat E sc (any_network (λ e n. tt)) (λ f v c i. i))
                      (Leads-reconcile_nat E sc gives) (λ s i j. (i, j)))
                    (λ _.
                      Leads-step _ _
                        (Keeps-reconcile_ulb E sc (any_network (λ e n. tt)) (λ v c i. i))
                        (Leads-reconcile_ulb E sc gives)
                        (λ s i j. record {
                          has_group = i.0.0.0;
                          has_vpc = i.0.0.1;
                          has_subnet = i.0.1;
                          has_nat = i.1;
                          has_ulb = j;
                        })))))

  -- After five steps that succeed the status has the ids of all five resources.
  reconcile_resources-settled :
      (s : State E.World)
      → (reconcile_resources E sc s).0 ≡ ok tt
      → HasResources (reconcile_resources E sc s).1.ucloud_cluster
  reconcile_resources-settled s e =
      (Leads-reconcile_resources.at s tt (record { object = tt; sent = All-any _ }) e).object

  -- In an environment where UCloud's answers give every resource that they list or make an id (for the
  -- actions that the SDK lacks, in what is decoded without an error from the texts that UCloud answers),
  -- when the five steps that make a cluster's resources succeed, whatever the status was before, then
  -- running them again in the state that they left succeeds without a call, and it leaves the object and
  -- the world as they are.
  pub reconcile_resources_twice :
      (s : State E.World)
      → (reconcile_resources E sc s).0 ≡ ok tt
      → reconcile_resources E sc (reconcile_resources E sc s).1
        ≡ (ok tt, (reconcile_resources E sc s).1)
  reconcile_resources_twice s e =
      reconcile_resources-HasResources E sc _ (reconcile_resources-settled s e)
