-- ===== src/Service/Call.antt =====
-- The shapes in which cloud/services calls the SDK.
use cluster_api_provider_ucl.Prelude.{
  ℤ, Bool, false, not, none, some, List, [], ◌∷◌, int_eq, if◌then◌else◌,
}
use cluster_api_provider_ucl.Go.{Error, Exec, pure, fail, crash, ◌>>=◌}
use cluster_api_provider_ucl.Api.Network.{Network}
use cluster_api_provider_ucl.Api.Cluster.{UcloudCluster}
use cluster_api_provider_ucl.Cloud.{Environment, Call, Body, Reply}
use cluster_api_provider_ucl.Scope.{Op, call}

-- `err != nil && res.GetRetCode() != code`.
abbrev pub fails_but : {A : Type 0} → ℤ → Reply A → Bool
fails_but code reply = elim reply.error [ none ↦ false | some _ ↦ not (int_eq reply.ret_code code) ]

abbrev error_of : {A : Type 0} → (Error → Error) → Reply A → Error → Error
error_of f reply default = elim reply.error [ none ↦ default | some e ↦ f e ]

module _ (E : Environment) where
  -- `res, err := client.Action(req); if err != nil && res.GetRetCode() != code { return f(err) }`.
  unfoldable pub request_but : ℤ → (Error → Error) → (c : Call) → Op E (Body c)
  request_but code f c = do
    reply ← call E c
    elim reply.error [
      | none ↦ pure reply.body
      | some e ↦ if int_eq reply.ret_code code then pure reply.body else fail (f e)
    ]

-- `xs[0]`, which panics on an empty slice.
unfoldable pub first {ℓ} : {S A : Type ℓ} → List A → Exec S A
first [] = crash "index out of range"
first (x ∷ xs) = pure x

abbrev pub set_network : (Network → Network) → UcloudCluster → UcloudCluster
set_network f c = record c { status = record (c.status) { network = f c.status.network } }
