-- ===== src/Controller/Cluster/Spares.antt =====
-- Taking a cluster down spares the VPC, the subnet and the NAT gateway that its spec names.
use mathlib.Core.Path.{subst}
use cluster_api_provider_ucl.Prelude.{String, false, ◌≡◌, refl, ◌==◌, All}
use cluster_api_provider_ucl.Api.Network.{NetworkSpec}
use cluster_api_provider_ucl.Api.Cluster.{UcloudCluster}
use cluster_api_provider_ucl.Cloud.{
  Environment, delete_vpc as delete_vpc_call, delete_subnet as delete_subnet_call, delete_natgw,
}
use cluster_api_provider_ucl.Scope.{ClusterScope, State, Event, called}
use cluster_api_provider_ucl.Service.Terminate.Emits.{AllowsHosts}
use cluster_api_provider_ucl.Controller.Cluster.{reconcile_delete}
use cluster_api_provider_ucl.Controller.Cluster.Emits.{AllowsTeardown, Keeps-reconcile_delete}

-- The call does not delete what the network's spec names by id.
abbrev pub Spares : NetworkSpec → Event → Type 0
Spares n (called (delete_vpc_call r)) = (n.vpc.vpc_id == r.vpc_id) ≡ false
Spares n (called (delete_subnet_call r)) = (n.subnet.subnet_id == r.subnet_id) ≡ false
Spares n (called (delete_natgw r)) = (n.nat.nat_gateway.nat_gateway_id == r.natgw_id) ≡ false
Spares n _ = Unit {0}

-- The test of the code reads the spec that the object has.
from_spec :
    (f : NetworkSpec → String) (m n : NetworkSpec) (id : String)
    → m ≡ n
    → (f m == id) ≡ false
    → (f n == id) ≡ false
from_spec f m n id i other = subst (λ k. (f k == id) ≡ false) i other

module _ (n : NetworkSpec) where
  abbrev HasSpec : UcloudCluster → Type 0
  HasSpec c = c.spec.network ≡ n

  Spares-hosts : AllowsHosts (Spares n)
  Spares-hosts = record {
    describes = λ r. tt;
    powers_off = λ r. tt;
    terminates = λ r. tt;
    deletes_ulb = λ r. tt;
    posts = λ r. tt;
  }

  Spares-teardown : (E : Environment) → AllowsTeardown E HasSpec (Spares n)
  Spares-teardown E = record {
    hosts = Spares-hosts;
    looks_up = λ _ _. tt;
    vpc = λ c r i other. from_spec (λ m. m.vpc.vpc_id) c.spec.network n _ i other;
    subnet = λ c r i other. from_spec (λ m. m.subnet.subnet_id) c.spec.network n _ i other;
    nat =
        λ c r i other. from_spec (λ m. m.nat.nat_gateway.nat_gateway_id) c.spec.network n _ i other;
    forgets = λ c i. i;
  }

module _ (E : Environment) (sc : ClusterScope) (s : State E.World) where
  -- In `reconcileDelete`, whatever UCloud and the API server answer, no call deletes the VPC, the
  -- subnet or the NAT gateway whose id the cluster's spec names: if none did before, none has after.
  pub reconcile_delete-Spares :
      All (Spares s.ucloud_cluster.spec.network) s.events
      → All (Spares s.ucloud_cluster.spec.network) (reconcile_delete E sc s).1.events
  reconcile_delete-Spares before =
      ((Keeps-reconcile_delete E sc (Spares-teardown s.ucloud_cluster.spec.network E)
          (λ fs c i. i)).at
        s (record { object = refl; sent = before })).sent
