-- ===== src/Tests/Refusals.antt =====
-- The theorems on a refused and on a second gateway at concrete inputs.
use cluster_api_provider_ucl.Prelude.{ℕ, List, suc, ◌+◌, ◌≡◌, refl, pos, none, some, [], ◌∷◌}
use cluster_api_provider_ucl.Go.{Error, ok, err, errorf, errorf_of}
use cluster_api_provider_ucl.Cloud.{
  Environment, Call, Body, Reply, FirewallDataSet, UnetAllocateEipSet, describe_firewall,
  allocate_eip, create_natgw, describe_natgw, NatGatewayDataSet,
}
use cluster_api_provider_ucl.Scope.{State}
use cluster_api_provider_ucl.Scope.Calls.{after_call}
use cluster_api_provider_ucl.Service.Nat.{reconcile_nat}
use cluster_api_provider_ucl.Service.Nat.Leaves.{
  make_call, addressed, with_gateway, IsReadyFor, reconcile_nat-refused,
  reconcile_nat-makes_another,
}
use cluster_api_provider_ucl.Tests.Samples.{whole_cluster, at_zero}
use cluster_api_provider_ucl.Tests.World.{body, environment_over}

abbrev wall : FirewallDataSet
wall = record { fw_id = "firewall-1"; name = "default"; fw_type = "" }

abbrev address : UnetAllocateEipSet
address = record { eip_id = "eip-1"; eip_addr = record { ip = "106.75.0.3" } ∷ [] }

abbrev no_quota : Error
no_quota = errorf "no quota" []

abbrev answer : (c : Call) → Reply (Body c)
answer (describe_firewall r) = record { body = wall ∷ []; ret_code = pos 0; error = none }
answer (allocate_eip r) = record { body = address ∷ []; ret_code = pos 0; error = none }
answer (create_natgw r) = record { body = ""; ret_code = pos 1; error = some no_quota }
answer c = record { body = body [] [] c; ret_code = pos 0; error = none }

-- UCloud makes no gateway.
abbrev refusing : Environment
refusing = environment_over ℕ (λ c w. (answer c, suc w)) (λ w. w) (λ w. suc w) (λ d w. w + d)

abbrev without_gateway : State ℕ
without_gateway =
    at_zero
      (record whole_cluster {
        status = record (whole_cluster.status) {
          network = record (whole_cluster.status.network) {
            nat = record (whole_cluster.status.network.nat) { nat_gateway_id = "" };
          };
        };
      })
      0

refusing-IsReadyFor : IsReadyFor refusing without_gateway wall address
refusing-IsReadyFor = record {
  unset = refl;
  has_vpc = refl;
  has_subnet = refl;
  answered = refl;
  shown = refl;
  walls = [];
  firewall_is = refl;
  allocated = refl;
  others = [];
  eip_is = refl;
  address = record { ip = "106.75.0.3" };
  addresses = [];
  address_is = refl;
}

reconcile_nat-refused_example : reconcile_nat refusing without_gateway ≡ (
  err (errorf_of "create nat gw failed: %s" [] no_quota),
  after_call refusing
      (make_call refusing without_gateway wall address)
      (addressed refusing without_gateway),
)
reconcile_nat-refused_example =
    reconcile_nat-refused refusing without_gateway wall address no_quota refusing-IsReadyFor refl
      refl

-- A gateway that was made before, under the default name.
abbrev earlier : List NatGatewayDataSet
earlier =
    record {
      firewall_id = "firewall-1";
      natgw_id = "natgw-1";
      natgw_name = "natgw-for-capu";
      vpc_id = "vpc-user";
      ip_set = [];
      subnet_set = [];
    }
    ∷ []

abbrev answer_again : (c : Call) → Reply (Body c)
answer_again (describe_natgw r) = record { body = earlier; ret_code = pos 0; error = none }
answer_again (create_natgw r) = record { body = "natgw-2"; ret_code = pos 0; error = none }
answer_again c = answer c

-- UCloud has a gateway, and makes another.
abbrev repeating : Environment
repeating = environment_over ℕ (λ c w. (answer_again c, suc w)) (λ w. w) (λ w. suc w) (λ d w. w + d)

repeating-IsReadyFor : IsReadyFor repeating without_gateway wall address
repeating-IsReadyFor = record {
  unset = refl;
  has_vpc = refl;
  has_subnet = refl;
  answered = refl;
  shown = refl;
  walls = [];
  firewall_is = refl;
  allocated = refl;
  others = [];
  eip_is = refl;
  address = record { ip = "106.75.0.3" };
  addresses = [];
  address_is = refl;
}

reconcile_nat-makes_another_example : reconcile_nat repeating without_gateway ≡ (
  ok tt,
  with_gateway repeating without_gateway "natgw-2" wall address (
      after_call repeating
        (make_call repeating without_gateway wall address)
        (addressed repeating without_gateway)),
)
reconcile_nat-makes_another_example =
    reconcile_nat-makes_another repeating without_gateway wall address repeating-IsReadyFor refl
      refl ((refl, refl), tt) refl
