-- ===== src/Service/Firewall.antt =====
-- cloud/services/firewalls.go
use cluster_api_provider_ucl.Prelude.{String, [], ◌∷◌}
use cluster_api_provider_ucl.Go.{errorf, errorf_of, pure, fail, ◌>>=◌}
use cluster_api_provider_ucl.Api.Network.{Firewall, no_firewall}
use cluster_api_provider_ucl.Cloud.{Environment, describe_firewall, FirewallDataSet}
use cluster_api_provider_ucl.Scope.{Op, request, with_cluster}
use cluster_api_provider_ucl.Scope.Cluster
use cluster_api_provider_ucl.Service.Subnet.{unless_empty}

abbrev as_firewall : FirewallDataSet → Firewall
as_firewall f = record no_firewall {
  firewall_id = f.fw_id;
  firewall_name = f.name;
  firewall_type = f.fw_type;
}

module _ (E : Environment) where
  unfoldable pub get_firewall : String → Op E Firewall
  get_firewall firewall_id = do
    c ← with_cluster pure
    firewalls ← request E (errorf_of "get firewall failed: %s" []) (
        describe_firewall (record {
          region = Cluster.region c;
          project_id = Cluster.project_id c;
          fw_id = unless_empty firewall_id;
        }))
    elim firewalls [ [] ↦ fail (errorf "can not find firewall" []) | f ∷ _ ↦ pure (as_firewall f) ]
