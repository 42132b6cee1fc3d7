-- ===== src/Service/Wait/Round.antt =====
-- One round of a waiting loop, by the error of its request.
use cluster_api_provider_ucl.Prelude.{ℕ, suc, ◌≡◌, refl, none, some, List}
use cluster_api_provider_ucl.Go.{Error, err, ◌>>=◌}
use cluster_api_provider_ucl.Cloud.{Environment, Call, UhostInstanceSet, describe_uhost_instance}
use cluster_api_provider_ucl.Scope.{State}
use cluster_api_provider_ucl.Scope.Calls.{reply_to, after_call, request-ok, request-err}
use cluster_api_provider_ucl.Service.Timer.{Timer}
use cluster_api_provider_ucl.Service.Wait.{Loop, after_test, wait_for}

module _ (E : Environment) {A : Type 0} (l : Loop A) where
  abbrev pub asking : Call
  asking = describe_uhost_instance l.asks

  abbrev pub hosts_of : State E.World → List UhostInstanceSet
  hosts_of s = (reply_to E asking s).body

  pub wait_for-answered :
      (rounds : ℕ) (t : Timer) (s : State E.World)
      → (reply_to E asking s).error ≡ none
      → wait_for E (suc rounds) l t s
        ≡ after_test E l t
            (hosts_of s)
            (λ t'. wait_for E rounds l t')
            (l.test (hosts_of s))
            (after_call E asking s)
  unfolding wait_for ◌>>=◌
  wait_for-answered rounds t s e = rw (request-ok E asking s l.describe_failed e) refl

  pub wait_for-unanswered :
      (rounds : ℕ) (t : Timer) (s : State E.World) (e : Error)
      → (reply_to E asking s).error ≡ some e
      → wait_for E (suc rounds) l t s ≡ (err (l.describe_failed e), after_call E asking s)
  unfolding wait_for ◌>>=◌
  wait_for-unanswered rounds t s e p = rw (request-err E asking s l.describe_failed e p) refl
