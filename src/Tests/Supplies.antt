-- ===== src/Tests/Supplies.antt =====
-- A world in which UCloud has nothing, and makes whatever it is asked for.
use cluster_api_provider_ucl.Prelude.{ℕ, suc, ◌+◌, ◌≡◌, refl, Option, none, [], ◌∷◌, pos}
use cluster_api_provider_ucl.Prelude.Text.{split}
use cluster_api_provider_ucl.Go.{Error, ok, wrapping, ◌>>=◌}
use cluster_api_provider_ucl.Cloud.{
  Environment, Call, Body, Request, Response, create_business_group, create_ulb, allocate_eip,
  describe_firewall,
}
use cluster_api_provider_ucl.Scope.{State, with_cluster, update_cluster, call, request}
use cluster_api_provider_ucl.Service.Call.{first}
use cluster_api_provider_ucl.Service.Request.{
  build_http_request, do_request, dispatch, send, handle, decoded, finish, error_handler,
  error_http_handler, common_base,
}
use cluster_api_provider_ucl.Service.Gives.{GivesIds}
use cluster_api_provider_ucl.Service.Eip.{create_eip, bind_eip}
use cluster_api_provider_ucl.Service.Firewall.{get_firewall}
use cluster_api_provider_ucl.Service.Group.{reconcile_ugroup}
use cluster_api_provider_ucl.Service.Vpc.{reconcile_vpc}
use cluster_api_provider_ucl.Service.Subnet.{reconcile_subnet, cidr_parts}
use cluster_api_provider_ucl.Service.Nat.{reconcile_nat}
use cluster_api_provider_ucl.Service.Ulb.{reconcile_ulb, formatted}
use cluster_api_provider_ucl.Controller.Cluster.{step, reconcile_resources}
use cluster_api_provider_ucl.Controller.Cluster.Settles.{reconcile_resources_twice}
use cluster_api_provider_ucl.Controller.Cluster.Remembers.{Remembers, reconcile_resources-Remembers}
use cluster_api_provider_ucl.Tests.Samples.{new_cluster, whole_cluster, cluster_scope, at_zero}
use cluster_api_provider_ucl.Tests.World.{body, environment_over}

abbrev supply : (c : Call) → Body c
supply (allocate_eip r) =
    record { eip_id = "eip-new"; eip_addr = record { ip = "106.75.0.1" } ∷ [] } ∷ []
supply (describe_firewall r) =
    record { fw_id = "firewall-1"; name = "non-web"; fw_type = "recommend" } ∷ []
supply c = body [] [] c

abbrev read_answer : (r : Request) → Response r → Response r × Option Error
read_answer (create_business_group r) res = (record res { business_id = "bg-new" }, none)
read_answer (create_ulb r) res = (record res { ulb_id = "ulb-new" }, none)
read_answer r res = (res, none)

abbrev pub supplying : Environment
supplying =
    record (environment_over ℕ
      (λ c w. (record { body = supply c; ret_code = pos 0; error = none }, suc w)) (λ w. w)
      (λ w. suc w) (λ d w. w + d)) { unmarshal = λ r text res. read_answer r res }

pub supplying-GivesIds : GivesIds supplying cluster_scope
supplying-GivesIds = record {
  lists_groups = λ r s text a e c. tt;
  makes_group = λ r s text a e c. refl;
  lists_vpcs = λ r w e. tt;
  makes_vpc = λ r w e. refl;
  lists_subnets = λ r w e. tt;
  makes_subnet = λ r w e. refl;
  lists_gateways = λ r w e. tt;
  makes_gateway = λ r w e. refl;
  lists_balancers = λ r w e. tt;
  makes_balancer = λ r s text a e c. refl;
}

abbrev start : State ℕ
start = at_zero new_cluster 0

made : (reconcile_resources supplying cluster_scope start).0 ≡ ok tt
unfolding reconcile_resources step with_cluster update_cluster wrapping request call first
    build_http_request do_request dispatch send handle decoded finish error_handler
    error_http_handler common_base create_eip bind_eip get_firewall reconcile_ugroup reconcile_vpc
    reconcile_subnet cidr_parts split reconcile_nat reconcile_ulb formatted ◌>>=◌
made = refl

reconcile_resources_twice_example :
    reconcile_resources supplying cluster_scope
      (reconcile_resources supplying cluster_scope start).1
    ≡ (ok tt, (reconcile_resources supplying cluster_scope start).1)
reconcile_resources_twice_example =
    reconcile_resources_twice supplying cluster_scope supplying-GivesIds start made

-- The group, the VPC and the subnet are there.
abbrev pub partly : State ℕ
partly =
    at_zero
      (record whole_cluster {
        status = record (whole_cluster.status) {
          network = record (whole_cluster.status.network) {
            nat = record (whole_cluster.status.network.nat) { nat_gateway_id = "" };
            ulb = record (whole_cluster.status.network.ulb) { load_balancer_id = "" };
          };
        };
      })
      0

reconcile_resources-Remembers_example :
    Remembers partly.ucloud_cluster
      (reconcile_resources supplying cluster_scope partly).1.ucloud_cluster
reconcile_resources-Remembers_example = reconcile_resources-Remembers supplying cluster_scope partly
