-- ===== src/Service/Request.antt =====
-- cloud/services/general.go: `GetZones`, and `doRequest` with its handlers, by which the actions that
-- the SDK lacks are sent. The log handlers change nothing and are left out.
pub mod Emits
pub mod Accepts
pub mod Bounds
use cluster_api_provider_ucl.Prelude.{
  ℕ, suc, ◌*◌, ◌^◌, ◌+◌, ℤ, pos, String, ◌<>◌, Bool, not, Option, none, some, List, [], ◌∷◌, ◌++◌,
  inl, inr, int_eq, if◌then◌else◌, ltb,
}
use cluster_api_provider_ucl.Prelude.Text.{trim_space}
use cluster_api_provider_ucl.Go.{
  Error, errorf, errorf_of, client_error, err_invalid_request, err_network, err_send_request,
  server_code_error, server_status_error, pure, fail, crash, Result, ok, err, panic, ◌>>=◌,
}
use cluster_api_provider_ucl.Api.Cluster.{UcloudCluster}
use cluster_api_provider_ucl.Cloud.{
  Environment, Request, Response, response_base, no_response, CommonBase, CommonResponse,
  HttpRequest, HttpReply, Config, Credential,
}
use cluster_api_provider_ucl.Defaults.{region_zones}
use cluster_api_provider_ucl.Scope.{ClusterScope, Op, State, posted, with_cluster}
use cluster_api_provider_ucl.Scope.Cluster

-- `1 << (retryCount * 2) * (rand.Intn(100) + 100)` milliseconds, with the count capped at 7; no
-- function of the program calls it. `jitter` is what `rand.Intn(100)` gave.
abbrev pub get_exp_backoff_delay : ℕ → ℕ → ℕ
get_exp_backoff_delay retry_count jitter =
    2 ^ ((if ltb 7 retry_count then 7 else retry_count) * 2) * (jitter + 100)

module _ (E : Environment) where
  unfoldable pub get_zones : Op E (List String)
  get_zones = with_cluster λ c. elim (region_zones (Cluster.region c)) [
    | none ↦ fail (errorf "can not find region %q" (Cluster.region c ∷ []))
    | some zones ↦ pure zones
  ]

module _ (E : Environment) (sc : ClusterScope) where
  abbrev http_request : Config → String → HttpRequest
  http_request config query = record {
    url = config.base_url;
    method = "POST";
    timeout = config.timeout;
    query = query;
    user_agent =
        trim_space
          ("GO/" <> E.go_version <> " GO-SDK/" <> E.sdk_version <> " " <> config.user_agent);
  }

  -- The query is built before the test on the credential; the configuration is followed after it.
  unfoldable pub build_http_request : Request → Op E HttpRequest
  build_http_request req = elim (E.to_query req) [
    | inl e ↦ fail (errorf_of "convert request to map failed, %s" [] e)
    | inr query ↦ elim sc.clients.credential [
      | none ↦ fail (errorf "invalid credential information, please set it before request." [])
      | some credential ↦ elim sc.clients.config [
        | none ↦ crash "nil pointer dereference"
        | some config ↦ pure (http_request config (query credential))
      ]
    ]
  ]

  -- `errorHTTPHandler`.
  unfoldable pub error_http_handler : Option Error → Option Error
  error_http_handler none = none
  error_http_handler (some e) = elim (E.status_error e) [
    | none ↦ some e
    | some (code, message) ↦ some (server_status_error code message)
  ]

  -- `errorHandler`, on the answer's return code and the error so far.
  unfoldable pub error_handler : CommonResponse → Option Error → Option Error
  error_handler base none =
      if int_eq base.ret_code (pos 0)
      then none
      else some (server_code_error base.ret_code base.message)
  error_handler base (some e) =
      if E.is_sdk_error e
      then some e
      else if E.is_network_error e
      then some (client_error err_network e)
      else some (client_error err_send_request e)

  unfoldable pub send : (req : Request) → HttpRequest → Op E HttpReply
  send req http s =
      let answer = E.send http s.world in
      (ok answer.0, record s { world = answer.1; events = s.events ++ (posted req ∷ []) })

  unfoldable pub finish : (req : Request) → Response req → Option Error → Op E (Response req)
  finish req res e = elim (error_handler (response_base req res) e) [
    | none ↦ pure res
    | some e' ↦ fail e'
  ]

  -- An error of `json.Unmarshal` is returned as it is.
  unfoldable pub decoded : (req : Request) → Response req × Option Error → Op E (Response req)
  unfolding finish
  decoded req (res, none) = finish req res none
  decoded req (res, some e) = fail e

  unfoldable pub handle : (req : Request) → Response req → HttpReply → Op E (Response req)
  unfolding decoded
  handle req res reply = elim (error_http_handler reply.error) [
    | some e ↦ finish req res (some e)
    | none ↦ elim reply.body [
      | none ↦ crash "nil pointer dereference"
      | some body ↦ decoded req (E.unmarshal req body res)
    ]
  ]

  unfoldable pub dispatch :
      (req : Request) → Response req → Result HttpRequest → Op E (Response req)
  unfolding send handle
  dispatch req res (err e) = fail (client_error err_invalid_request e)
  dispatch req res (panic why) = crash why
  dispatch req res (ok http) = send req http >>= handle req res

  -- `err := s.doRequest(req, &res)`: the answer as it is afterwards, or the error. Building the HTTP
  -- request leaves the state alone.
  unfoldable pub do_request : (req : Request) → Response req → Op E (Response req)
  unfolding dispatch
  do_request req res s = dispatch req res (build_http_request req s).0 s

module _ (E : Environment) where
  -- The first lines of every request: `SetAction`, `SetRequestTime(time.Now())`, region, project.
  unfoldable pub common_base : String → UcloudCluster → Op E CommonBase
  common_base action c s = (
    ok (record {
      action = action;
      request_time = E.now s.world;
      region = some (Cluster.region c);
      zone = none;
      project_id = some (Cluster.project_id c);
    }),
    s,
  )
