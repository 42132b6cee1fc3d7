-- ===== src/Service/Ignores.antt =====
-- Properties of the cluster's object that do not read what one of the steps writes to the status.
use cluster_api_provider_ucl.Api.Network.{Group, Vpc, Subnet, Nat, Firewall, Ulb}
use cluster_api_provider_ucl.Api.Cluster.{UcloudCluster}
use cluster_api_provider_ucl.Service.Call.{set_network}

module _ (I : UcloudCluster → Type 0) where
  abbrev pub IgnoresGroup : Type 0
  IgnoresGroup =
      (g : Group) (c : UcloudCluster)
      → I c
      → I (record c { status = record (c.status) { group = g } })

  abbrev pub IgnoresVpc : Type 0
  IgnoresVpc = (v : Vpc) (c : UcloudCluster) → I c → I (set_network (λ n. record n { vpc = v }) c)

  abbrev pub IgnoresSubnet : Type 0
  IgnoresSubnet =
      (v : Subnet) (c : UcloudCluster) → I c → I (set_network (λ n. record n { subnet = v }) c)

  abbrev pub IgnoresNat : Type 0
  IgnoresNat =
      (f : Firewall) (v : Nat) (c : UcloudCluster)
      → I c
      → I (set_network (λ n. record n { firewall = f; nat = v }) c)

  abbrev pub IgnoresUlb : Type 0
  IgnoresUlb = (v : Ulb) (c : UcloudCluster) → I c → I (set_network (λ n. record n { ulb = v }) c)
