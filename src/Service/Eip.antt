-- ===== src/Service/Eip.antt =====
-- cloud/services/eip.go
use cluster_api_provider_ucl.Prelude.{
  ℤ, pos, String, Option, none, some, [], ◌∷◌, int_eq, if◌then◌else◌,
}
use cluster_api_provider_ucl.Go.{errorf_of, pure, ◌>>=◌}
use cluster_api_provider_ucl.Api.Network.{EipSpec, Eip, no_eip}
use cluster_api_provider_ucl.Cloud.{
  Environment, allocate_eip, release_eip, bind_eip as bind_eip_call, unbind_eip as unbind_eip_call,
}
use cluster_api_provider_ucl.Defaults.{default_nat_gateway_eip_bandwidth, eip_operator}
use cluster_api_provider_ucl.Scope.{Op, request, with_cluster}
use cluster_api_provider_ucl.Scope.Cluster
use cluster_api_provider_ucl.Service.Call.{first}
use cluster_api_provider_ucl.Service.Subnet.{unless_empty}

abbrev pub eip_bandwidth : EipSpec → ℤ
eip_bandwidth spec =
    if int_eq spec.bandwidth (pos 0) then default_nat_gateway_eip_bandwidth else spec.bandwidth

-- `ucloud.StringValue`: the empty text for a nil pointer.
abbrev pub string_value : Option String → String
string_value none = ""
string_value (some v) = v

module _ (E : Environment) where
  unfoldable pub create_eip : EipSpec → Op E Eip
  create_eip spec = do
    c ← with_cluster pure
    let name = unless_empty spec.eip_name
    set ← request E (errorf_of "allocate eip failed: %s" []) (
        allocate_eip (record {
          region = Cluster.region c;
          project_id = Cluster.project_id c;
          tag = Cluster.group_name c;
          operator_name = eip_operator (Cluster.region c);
          bandwidth = eip_bandwidth spec;
          name = name;
        }))
    new ← first set
    address ← first new.eip_addr
    pure (record no_eip {
      bandwidth = eip_bandwidth spec;
      eip_id = new.eip_id;
      eip_addr = address.ip;
      eip_name = string_value name;
    })

  unfoldable pub delete_eip : String → Op E Unit
  delete_eip eip_id = with_cluster λ c.
      request E (errorf_of "release eip %s failed: %s" (eip_id ∷ [])) (
        release_eip (record {
          region = Cluster.region c;
          project_id = Cluster.project_id c;
          eip_id = eip_id;
        }))

  unfoldable pub bind_eip : String → String → String → Op E Unit
  bind_eip eip_id resource_id resource_type = with_cluster λ c.
      request E
        (errorf_of "bind eip %s with %s %s failed: %s" (eip_id ∷ resource_type ∷ resource_id ∷ []))
        (bind_eip_call (record {
          region = Cluster.region c;
          project_id = Cluster.project_id c;
          eip_id = eip_id;
          resource_id = resource_id;
          resource_type = resource_type;
        }))

  unfoldable pub unbind_eip : String → String → String → Op E Unit
  unbind_eip eip_id resource_id resource_type = with_cluster λ c.
      request E
        (errorf_of "unbind eip %s with %s %s failed: %s"
          (eip_id ∷ resource_type ∷ resource_id ∷ []))
        (unbind_eip_call (record {
          region = Cluster.region c;
          project_id = Cluster.project_id c;
          eip_id = eip_id;
          resource_id = resource_id;
          resource_type = resource_type;
        }))
