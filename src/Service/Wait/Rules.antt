-- ===== src/Service/Wait/Rules.antt =====
-- Rules for what never stops for the lack of rounds, one for each way to build an operation.
use cluster_api_provider_ucl.Prelude.{
  ℕ, suc, ℤ, Bool, true, false, ◌+◌, ◌*◌, ◌≡◌, ◌≢◌, Option-cases, inl, inr, Option, none, some,
  List, [], ◌∷◌, int_eq, if◌then◌else◌, arith, eq_iff,
}
use cluster_api_provider_ucl.Go.{Error, Exec, Result, ok, err, panic, pure, fail, continue, ◌>>=◌}
use cluster_api_provider_ucl.Api.Cluster.{UcloudCluster}
use cluster_api_provider_ucl.Cloud.{Environment, Call, Body, Reply}
use cluster_api_provider_ucl.Scope.{State, Op, call, request, with_cluster}
use cluster_api_provider_ucl.Scope.Calls.{reply_to, request-ok, request-err}
use cluster_api_provider_ucl.Service.Call.{request_but, first}
use cluster_api_provider_ucl.Service.Timer.{Timer}
use cluster_api_provider_ucl.Service.Wait.{IsClock, Loop, no_rounds, now_is, wait_for}
use cluster_api_provider_ucl.Service.Wait.Ends.{IsSound, wait_for-Ended}

-- Whatever the state, the end is a value, an error, or a panic of Go.
pub record Ends {S A : Type 0} (m : Exec S A) : Type 0 where
  pub at : (s : S) → (m s).0 ≢ panic no_rounds

module _ {S A : Type 0} where
  pub Ends-pure : (a : A) → Ends {S = S} (pure a)
  unfolding ◌>>=◌
  Ends-pure a = record { at = λ s p. cc }

  pub Ends-fail : (e : Error) → Ends {S = S} {A = A} (fail e)
  unfolding ◌>>=◌
  Ends-fail e = record { at = λ s p. cc }

  pub Ends-if : (b : Bool) (m n : Exec S A) → Ends m → Ends n → Ends (if b then m else n)
  Ends-if true m n km kn = km
  Ends-if false m n km kn = kn

module _ {S A B : Type 0} where
  Ends-continue :
      (r : Result A) (f : A → Exec S B) (s : S)
      → r ≢ panic no_rounds
      → ((a : A) → Ends (f a))
      → (continue r f s).0 ≢ panic no_rounds
  Ends-continue (ok a) f s n k = (k a).at s
  Ends-continue (err e) f s n k = λ p. cc
  Ends-continue (panic why) f s n k = λ p. n (cc)

  pub Ends-bind :
      (m : Exec S A) (f : A → Exec S B) → Ends m → ((a : A) → Ends (f a)) → Ends (m >>= f)
  unfolding ◌>>=◌
  Ends-bind m f km kf = record { at = λ s. Ends-continue (m s).0 f (m s).1 (km.at s) kf }

pub out_of_range : "index out of range" ≢ no_rounds
out_of_range = λ p. ground (arith, eq_iff "index out of range" no_rounds)

module _ {W : Type 0} where
  pub Ends-with_cluster :
      {A : Type 0} (f : UcloudCluster → Exec (State W) A)
      → ((c : UcloudCluster) → Ends (f c))
      → Ends (with_cluster f)
  unfolding with_cluster
  Ends-with_cluster f k = record { at = λ s. (k s.ucloud_cluster).at s }

  pub Ends-first : {A : Type 0} (xs : List A) → Ends {S = State W} (first xs)
  unfolding first ◌>>=◌
  Ends-first [] = record { at = λ s p. out_of_range (cc) }
  Ends-first (x ∷ xs) = Ends-pure x

module _ (E : Environment) where
  pub Ends-request : (f : Error → Error) (c : Call) → Ends (request E f c)
  Ends-request f c = record {
    at = λ s. elim (Option-cases (reply_to E c s).error) [
      | inl e ↦ rw (request-ok E c s f e) (λ p. cc)
      | inr (e, p) ↦ rw (request-err E c s f e p) (λ q. cc)
    ];
  }

  answered_but :
      (c : Call) (code : ℤ) (f : Error → Error) (reply : Reply (Body c)) (o : Option Error)
      → Ends {S = State E.World} (elim o [
        | none ↦ pure reply.body
        | some e ↦ if int_eq reply.ret_code code then pure reply.body else fail (f e)
      ])
  answered_but c code f reply none = Ends-pure reply.body
  answered_but c code f reply (some e) =
      Ends-if (int_eq reply.ret_code code) _ _ (Ends-pure reply.body) (Ends-fail (f e))

  Ends-call : (c : Call) → Ends (call E c)
  unfolding call
  Ends-call c = record { at = λ s p. cc }

  pub Ends-request_but : (code : ℤ) (f : Error → Error) (c : Call) → Ends (request_but E code f c)
  unfolding request_but
  Ends-request_but code f c =
      Ends-bind (call E c) _ (Ends-call c) (λ reply. answered_but c code f reply reply.error)

  -- A loop that starts with a timer of `rounds` pauses.
  pub Ends-timed :
      {A B : Type 0} (l : Loop A) (rounds : ℕ) (timer : ℕ → Timer) (f : A × Timer → Op E B)
      → IsClock E
      → IsSound l
      → ((now : ℕ) → (timer now).deadline ≡ some (now + rounds * l.pause))
      → ((a : A × Timer) → Ends (f a))
      → Ends (now_is E >>= λ now. wait_for E (suc rounds) l (timer now) >>= f)
  unfolding ◌>>=◌ now_is
  Ends-timed l rounds timer f clock sound set k = record {
    at = λ s.
        Ends-continue (wait_for E (suc rounds) l (timer (E.now s.world)) s).0 f _
          (wait_for-Ended E l clock sound rounds _ (timer (E.now s.world)) s (set (E.now s.world))
            (omega arith))
          k;
  }
