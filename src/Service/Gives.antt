-- ===== src/Service/Gives.antt =====
-- What UCloud's answers give: resources with ids.
pub mod Ids
use mathlib.Core.Path.{subst}
use cluster_api_provider_ucl.Prelude.{
  ◌≡◌, refl, sym, ap, ◌∙◌, pos, String, false, is_empty, All, Option, none, some, List, [], ◌∷◌,
  if◌then◌else◌,
}
use cluster_api_provider_ucl.Go.{Error, Exec, ok, err, pure, fail, ◌>>=◌}
use cluster_api_provider_ucl.Go.Keeps.{Keeps-pure, Keeps-crash}
use cluster_api_provider_ucl.Go.Leads.{Leads, Leads-Keeps, ok-injective}
use cluster_api_provider_ucl.Api.Cluster.{UcloudCluster}
use cluster_api_provider_ucl.Service.Call.{first}
use cluster_api_provider_ucl.Cloud.{
  Environment, Call, Body, Request, Response, response_base, no_response, VpcInfo, VpcSubnetInfoSet,
  NatGatewayDataSet, UlbSet, BusinessGroupInfo, DescribeVpcRequest, CreateVpcRequest,
  DescribeSubnetRequest, CreateSubnetRequest, DescribeNatgwRequest, CreateNatgwRequest,
  DescribeUlbRequest, ListBusinessGroupRequest, CreateBusinessGroupRequest, CreateUlbRequestPlus,
  describe_vpc, create_vpc, describe_subnet, create_subnet, describe_natgw, create_natgw,
  describe_ulb, list_business_group, create_business_group, create_ulb,
}
use cluster_api_provider_ucl.Scope.{ClusterScope, State, request, with_cluster, update_cluster}
use cluster_api_provider_ucl.Scope.Calls.{reply_to, after_call, request-ok, request-err}
use cluster_api_provider_ucl.Service.Request.{do_request}
use cluster_api_provider_ucl.Service.Request.Accepts.{IsAnswer, do_request-read}

-- An id is not the empty text.
abbrev pub IsId : String → Type 0
IsId id = is_empty id ≡ false

-- The body of a call that succeeds has `T`.
abbrev pub Answers : (E : Environment) (c : Call) → (Body c → Type 0) → Type 0
Answers E c T = (w : E.World) → (E.invoke c w).0.error ≡ none → T (E.invoke c w).0.body

-- Of the texts that UCloud answers the request with, in any state: what is decoded of them without an
-- error and has the return code 0 has `T`.
abbrev pub Decodes :
    (E : Environment) (sc : ClusterScope) (r : Request) → (Response r → Type 0) → Type 0
Decodes E sc r T =
    (s : State E.World) (text : String)
    → IsAnswer E sc r s text
    → (E.unmarshal r text (no_response r)).1 ≡ none
    → (response_base r (E.unmarshal r text (no_response r)).0).ret_code ≡ pos 0
    → T (E.unmarshal r text (no_response r)).0

-- The resources that UCloud lists and makes have ids.
pub record GivesIds (E : Environment) (sc : ClusterScope) : Type 0 where
  pub lists_groups :
      (r : ListBusinessGroupRequest)
      → Decodes E sc (list_business_group r) (λ res. All (λ g. IsId g.business_id) res.infos)
  pub makes_group :
      (r : CreateBusinessGroupRequest)
      → Decodes E sc (create_business_group r) (λ res. IsId res.business_id)
  pub lists_vpcs : (r : DescribeVpcRequest) → Answers E (describe_vpc r) (All (λ v. IsId v.vpc_id))
  pub makes_vpc : (r : CreateVpcRequest) → Answers E (create_vpc r) IsId
  pub lists_subnets :
      (r : DescribeSubnetRequest) → Answers E (describe_subnet r) (All (λ n. IsId n.subnet_id))
  pub makes_subnet : (r : CreateSubnetRequest) → Answers E (create_subnet r) IsId
  pub lists_gateways :
      (r : DescribeNatgwRequest) → Answers E (describe_natgw r) (All (λ g. IsId g.natgw_id))
  pub makes_gateway : (r : CreateNatgwRequest) → Answers E (create_natgw r) IsId
  pub lists_balancers :
      (r : DescribeUlbRequest) → Answers E (describe_ulb r) (All (λ u. IsId u.ulb_id))
  pub makes_balancer :
      (r : CreateUlbRequestPlus) → Decodes E sc (create_ulb r) (λ res. IsId res.ulb_id)

module _ (E : Environment) where
  module _ (c : Call) (T : Body c → Type 0) (f : Error → Error) (gives : Answers E c T) where
    answered :
        (s : State E.World) (a : Body c) (o : Option Error)
        → (reply_to E c s).error ≡ o
        → (request E f c s).0 ≡ ok a
        → T a
    answered s a none e p =
        subst T (ok-injective (sym (ap (λ r. r.0) (request-ok E c s f e)) ∙ p)) (gives s.world e)
    answered s a (some x) e p = let q = sym (ap (λ r. r.0) (request-err E c s f x e)) ∙ p in cc

    -- The value of a request is the body of an answer without an error.
    pub Leads-request : Leads (λ _. Unit {0}) (request E f c) (λ a _. T a)
    Leads-request = record { at = λ s a h p. answered s a (reply_to E c s).error refl p }

  -- The value of a request outside of the SDK is what was decoded.
  pub Leads-do_request :
      (sc : ClusterScope) (r : Request) (T : Response r → Type 0)
      → Decodes E sc r T
      → Leads (λ _. Unit {0}) (do_request E sc r (no_response r)) (λ a _. T a)
  Leads-do_request sc r T gives = record {
    at = λ s a h p. do_request-read E sc r (no_response r) s T (gives s) a p;
  }

module _ {W : Type 0} {P : State W → Type 0} where
  -- An operation on the object that is read first.
  pub Leads-with_cluster :
      {A : Type 0} {R : A → State W → Type 0} (f : UcloudCluster → Exec (State W) A)
      → ((c : UcloudCluster) → Leads (λ s. s.ucloud_cluster ≡ c) (f c) R)
      → Leads P (with_cluster f) R
  unfolding with_cluster
  Leads-with_cluster f k = record { at = λ s a h p. (k s.ucloud_cluster).at s a refl p }

  -- A write.
  pub Leads-update :
      {R : State W → Type 0} (f : UcloudCluster → UcloudCluster)
      → ((s : State W) → P s → R (record s { ucloud_cluster = f s.ucloud_cluster }))
      → Leads P (update_cluster f) (λ _. R)
  unfolding update_cluster
  Leads-update f k = record { at = λ s a h p. k s h }

  -- The first item of a list, which writes nothing.
  pub Leads-first : {A : Type 0} (xs : List A) → Leads P (first xs) (λ _. P)
  unfolding first
  Leads-first [] = Leads-Keeps _ (Keeps-crash _)
  Leads-first (x ∷ xs) = Leads-Keeps _ (Keeps-pure x)
