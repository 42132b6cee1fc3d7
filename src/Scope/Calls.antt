-- ===== src/Scope/Calls.antt =====
-- What one call does, by the error of its reply.
use cluster_api_provider_ucl.Prelude.{
  ◌≡◌, refl, ap, inl, inr, Option, Option-cases, none, some, [], ◌∷◌, ◌++◌,
}
use cluster_api_provider_ucl.Go.{Error, Exec, ok, err, pure, fail, ◌>>=◌}
use cluster_api_provider_ucl.Cloud.{Environment, Call, Body, Reply}
use cluster_api_provider_ucl.Scope.{State, called, call, request}

module _ (E : Environment) (c : Call) (s : State E.World) where
  abbrev pub reply_to : Reply (Body c)
  reply_to = (E.invoke c s.world).0

  abbrev pub after_call : State E.World
  after_call = record s { world = (E.invoke c s.world).1; events = s.events ++ (called c ∷ []) }

  by_error : (f : Error → Error) (o : Option Error) → Exec (State E.World) (Body c)
  by_error f o = elim o [ none ↦ pure reply_to.body | some e ↦ fail (f e) ]

  request-by_error : (f : Error → Error) → request E f c s ≡ by_error f reply_to.error after_call
  unfolding request call by_error ◌>>=◌
  request-by_error f = refl

  pub request-ok :
      (f : Error → Error) → reply_to.error ≡ none → request E f c s ≡ (ok reply_to.body, after_call)
  unfolding by_error ◌>>=◌
  request-ok f e = rw (request-by_error f) (rw e refl)

  pub request-err :
      (f : Error → Error) (e : Error)
      → reply_to.error ≡ some e
      → request E f c s ≡ (err (f e), after_call)
  unfolding by_error ◌>>=◌
  request-err f e p = rw (request-by_error f) (rw p refl)

  -- Whatever the answer is, the call was made and the object is as it was.
  pub request-state : (f : Error → Error) → (request E f c s).1 ≡ after_call
  request-state f = elim (Option-cases reply_to.error) [
    | inl e ↦ ap (λ r. r.1) (request-ok f e)
    | inr (x, e) ↦ ap (λ r. r.1) (request-err f x e)
  ]
