-- ===== src/Service/Request/Emits.antt =====
-- What `doRequest` sends: the action it is given, once at most.
use cluster_api_provider_ucl.Prelude.{String, Option, none, some, [], ◌∷◌, All-append}
use cluster_api_provider_ucl.Go.{Error, Result, ok, err, panic, pure, fail, crash}
use cluster_api_provider_ucl.Go.Keeps.{Keeps, Keeps-pure, Keeps-fail, Keeps-crash, Keeps-bind}
use cluster_api_provider_ucl.Api.Cluster.{UcloudCluster}
use cluster_api_provider_ucl.Cloud.{
  Environment, Request, Response, response_base, HttpRequest, HttpReply,
}
use cluster_api_provider_ucl.Scope.{ClusterScope, Event, posted}
use cluster_api_provider_ucl.Service.Emits.{Emits}
use cluster_api_provider_ucl.Service.Request.{
  build_http_request, error_http_handler, error_handler, send, finish, decoded, handle, dispatch,
  do_request, common_base,
}

module _ (E : Environment) {I : UcloudCluster → Type 0} {Q : Event → Type 0} where
  pub Keeps-common_base :
      (action : String) (c : UcloudCluster) → Keeps (Emits I Q) (common_base E action c)
  unfolding common_base
  Keeps-common_base action c = record { at = λ s h. h }

module _ (E : Environment) (sc : ClusterScope) {I : UcloudCluster → Type 0}
    {Q : Event → Type 0} where
  Keeps-send :
      (req : Request) (http : HttpRequest) → Q (posted req) → Keeps (Emits I Q) (send E sc req http)
  unfolding send
  Keeps-send req http q = record {
    at = λ s h. record {
      object = h.object;
      sent = All-append Q s.events (posted req ∷ []) h.sent (q, tt);
    };
  }

  finished :
      (req : Request) (res : Response req) (o : Option Error)
      → Keeps (Emits {W = E.World} I Q) (elim o [ none ↦ pure res | some e ↦ fail e ])
  finished req res none = Keeps-pure res
  finished req res (some e) = Keeps-fail e

  Keeps-finish :
      (req : Request) (res : Response req) (e : Option Error)
      → Keeps (Emits I Q) (finish E sc req res e)
  unfolding finish
  Keeps-finish req res e = finished req res (error_handler E sc (response_base req res) e)

  Keeps-decoded :
      (req : Request) (d : Response req × Option Error) → Keeps (Emits I Q) (decoded E sc req d)
  unfolding decoded
  Keeps-decoded req (res, none) = Keeps-finish req res none
  Keeps-decoded req (res, some e) = Keeps-fail e

  handled :
      (req : Request) (res : Response req) (body : Option String) (e : Option Error)
      → Keeps {A = Response req} (Emits {W = E.World} I Q) (elim e [
        | some e' ↦ finish E sc req res (some e')
        | none ↦ elim body [
          | none ↦ crash "nil pointer dereference"
          | some b ↦ decoded E sc req (E.unmarshal req b res)
        ]
      ])
  handled req res body (some e) = Keeps-finish req res (some e)
  handled req res none none = Keeps-crash _
  handled req res (some b) none = Keeps-decoded req (E.unmarshal req b res)

  Keeps-handle :
      (req : Request) (res : Response req) (reply : HttpReply)
      → Keeps (Emits I Q) (handle E sc req res reply)
  unfolding handle
  Keeps-handle req res reply = handled req res reply.body (error_http_handler E sc reply.error)

  Keeps-dispatch :
      (req : Request) (res : Response req) (r : Result HttpRequest)
      → Q (posted req)
      → Keeps (Emits I Q) (dispatch E sc req res r)
  unfolding dispatch
  Keeps-dispatch req res (ok http) q =
      Keeps-bind (send E sc req http) (handle E sc req res) (Keeps-send req http q)
        (Keeps-handle req res)
  Keeps-dispatch req res (err e) q = Keeps-fail _
  Keeps-dispatch req res (panic why) q = Keeps-crash why

  pub Keeps-do_request :
      (req : Request) (res : Response req)
      → Q (posted req)
      → Keeps (Emits I Q) (do_request E sc req res)
  unfolding do_request
  Keeps-do_request req res q = record {
    at = λ s h. (Keeps-dispatch req res (build_http_request E sc req s).0 q).at s h;
  }
