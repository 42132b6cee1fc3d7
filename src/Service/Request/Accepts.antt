-- ===== src/Service/Request/Accepts.antt =====
-- What `doRequest` accepts as an answer.
use mathlib.Core.Path.{subst}
use cluster_api_provider_ucl.Prelude.{
  ◌≡◌, ◌≢◌, refl, pos, true, Bool-cases, Option-cases, inl, inr, Option, none, some, String, int_eq,
  int_eq_iff,
}
use cluster_api_provider_ucl.Go.{Error, Result, ok, err, panic, pure, fail, crash, ◌>>=◌}
use cluster_api_provider_ucl.Cloud.{
  Environment, Request, Response, response_base, CommonResponse, HttpRequest,
}
use cluster_api_provider_ucl.Scope.{ClusterScope, Op, State}
use cluster_api_provider_ucl.Service.Request.{
  error_http_handler, error_handler, build_http_request, finish, decoded, send, handle, dispatch,
  do_request,
}

not_none : {B : Type 0} {e : Error} → some e ≡ none → B
not_none p = cc

module _ (E : Environment) (sc : ClusterScope) where
  error_handler-none :
      (base : CommonResponse) (e : Option Error)
      → error_handler E sc base e ≡ none
      → int_eq base.ret_code (pos 0) ≡ true
  unfolding error_handler
  error_handler-none base none p = elim (Bool-cases (int_eq base.ret_code (pos 0))) [
    | inl q ↦ q
    | inr q ↦ not_none (rw q at p)
  ]
  error_handler-none base (some e) p = elim (Bool-cases (E.is_sdk_error e)) [
    | inl q ↦ not_none (rw q at p)
    | inr q ↦ elim (Bool-cases (E.is_network_error e)) [
      | inl r ↦ not_none (rw (q, r) at p)
      | inr r ↦ not_none (rw (q, r) at p)
    ]
  ]

  error_handler-some : (base : CommonResponse) (x : Error) → error_handler E sc base (some x) ≢ none
  unfolding error_handler
  error_handler-some base x p = elim (Bool-cases (E.is_sdk_error x)) [
    | inl q ↦ not_none (rw q at p)
    | inr q ↦ elim (Bool-cases (E.is_network_error x)) [
      | inl r ↦ not_none (rw (q, r) at p)
      | inr r ↦ not_none (rw (q, r) at p)
    ]
  ]

  abbrev pub Accepted : (req : Request) → Response req → Type 0
  Accepted req res = (response_base req res).ret_code ≡ pos 0

  -- The request is sent from the state `begin` and answered, without an error, with the text.
  pub record IsAnswer (req : Request) (begin : State E.World) (text : String) : Type 0 where
    pub http : HttpRequest
    pub built : (build_http_request E sc req begin).0 ≡ ok http
    pub sent : (E.send http begin.world).0.error ≡ none
    pub text_is : (E.send http begin.world).0.body ≡ some text

  error_http_handler-none : (o : Option Error) → error_http_handler E sc o ≡ none → o ≡ none
  unfolding error_http_handler
  error_http_handler-none none p = refl
  error_http_handler-none (some e) p = elim (Option-cases (E.status_error e)) [
    | inl q ↦ not_none (rw (error_http_handler, q) at p)
    | inr (status, q) ↦ not_none (rw (error_http_handler, q) at p)
  ]

  -- `T` holds of what the decoder makes of the text that answers the request, when it has no error and
  -- the return code is 0.
  module _ (req : Request) (start : Response req) (begin : State E.World)
      (T : Response req → Type 0)
      (reads : (text : String)
        → IsAnswer req begin text
        → (E.unmarshal req text start).1 ≡ none
        → Accepted req (E.unmarshal req text start).0
        → T (E.unmarshal req text start).0) where
    chosen :
        (o : Option Error) (res r : Response req) (s : State E.World)
        → ((elim o as (λ _. Op E (Response req)) [ none ↦ pure res | some e ↦ fail e ]) s).0 ≡ ok r
        → (o ≡ none) × (res ≡ r)
    unfolding ◌>>=◌
    chosen none res r s p = (refl, cc)
    chosen (some e) res r s p = cc

    finish-read :
        (res r : Response req) (s : State E.World)
        → (Accepted req res → T res)
        → (finish E sc req res none s).0 ≡ ok r
        → T r
    unfolding finish
    finish-read res r s k p =
        let c = chosen (error_handler E sc (response_base req res) none) res r s p in
        subst T c.1 (k ((int_eq_iff _ _).0 (error_handler-none (response_base req res) none c.0)))

    decoded-read :
        (text : String) (answer : Response req × Option Error) (r : Response req)
        (s : State E.World)
        → IsAnswer req begin text
        → E.unmarshal req text start ≡ answer
        → (decoded E sc req answer s).0 ≡ ok r
        → T r
    unfolding decoded ◌>>=◌
    decoded-read text (res, none) r s a e p =
        finish-read res r s
          (subst (λ (a : Response req × Option Error). a.1 ≡ none → Accepted req a.0 → T a.0) e
            (reads text a) refl)
          p
    decoded-read text (res, some x) r s a e p = cc

    -- What `handle` does once the body is known.
    abbrev read_body : Option String → Op E (Response req)
    read_body o = elim o [
      | none ↦ crash "nil pointer dereference"
      | some body ↦ decoded E sc req (E.unmarshal req body start)
    ]

    read_body-read :
        (o : Option String) (r : Response req) (s : State E.World)
        → ((text : String) → o ≡ some text → IsAnswer req begin text)
        → (read_body o s).0 ≡ ok r
        → T r
    unfolding ◌>>=◌
    read_body-read none r s a p = cc
    read_body-read (some body) r s a p =
        decoded-read body (E.unmarshal req body start) r s (a body refl) refl p

    abbrev by_error : Option String → Option Error → Op E (Response req)
    by_error body e = elim e [ some x ↦ finish E sc req start (some x) | none ↦ read_body body ]

    by_error-read :
        (body : Option String) (e : Option Error) (r : Response req) (s : State E.World)
        → ((text : String) → e ≡ none → body ≡ some text → IsAnswer req begin text)
        → (by_error body e s).0 ≡ ok r
        → T r
    unfolding finish
    by_error-read body none r s a p = read_body-read body r s (λ text. a text refl) p
    by_error-read body (some x) r s a p = absurd (
        error_handler-some _ x
          (chosen (error_handler E sc (response_base req start) (some x)) start r s p).0)

    dispatch-read :
        (http : Result HttpRequest) (r : Response req)
        → (build_http_request E sc req begin).0 ≡ http
        → (dispatch E sc req start http begin).0 ≡ ok r
        → T r
    unfolding dispatch handle ◌>>=◌ send
    dispatch-read (err e) r b p = cc
    dispatch-read (panic why) r b p = cc
    dispatch-read (ok http) r b p =
        by_error-read (E.send http begin.world).0.body
          (error_http_handler E sc (E.send http begin.world).0.error) r _
          (λ text e t. record {
            http = http;
            built = b;
            sent = error_http_handler-none _ e;
            text_is = t;
          })
          p

    -- Whatever `doRequest` returns was decoded.
    pub do_request-read : (r : Response req) → (do_request E sc req start begin).0 ≡ ok r → T r
    unfolding do_request
    do_request-read r p = dispatch-read (build_http_request E sc req begin).0 r refl p

  module _ (req : Request) where
    -- An answer that `doRequest` returns without an error has the return code 0: an answer with any other
    -- code is an error, whatever the HTTP client and the decoder did.
    pub do_request-ret_code :
        (res r : Response req) (s : State E.World)
        → (do_request E sc req res s).0 ≡ ok r
        → (response_base req r).ret_code ≡ pos 0
    do_request-ret_code res r s p = do_request-read req res s (Accepted req) (λ text a e c. c) r p
