-- ===== src/Service/Sends.antt =====
-- How many calls an operation sends at most, one rule for each way to build one.
use cluster_api_provider_ucl.Prelude.{
  ℕ, zero, suc, ◌+◌, ◌≤◌, ◌≡◌, refl, ℤ, Bool, true, false, Option, none, some, List, [], ◌∷◌, ◌++◌,
  length, arith, int_eq, if◌then◌else◌,
}
use cluster_api_provider_ucl.Go.{
  Error, Exec, Result, ok, err, panic, continue, pure, fail, crash, ◌>>=◌,
}
use cluster_api_provider_ucl.Api.Cluster.{UcloudCluster}
use cluster_api_provider_ucl.Cloud.{
  Environment, Call, Body, Reply, UhostInstanceSet, describe_uhost_instance,
}
use cluster_api_provider_ucl.Scope.{State, Event, Op, call, request, with_cluster}
use cluster_api_provider_ucl.Service.Call.{request_but, first}
use cluster_api_provider_ucl.Service.Timer.{Timer, fired, drained, stop}
use cluster_api_provider_ucl.Service.Wait.{
  Loop, Check, leave, again, broken, now_is, sleep_for, after_test, wait_for,
}

-- Whatever the state and the answers, at most `n` events are added.
pub record Sends {W A : Type 0} (n : ℕ) (m : Exec (State W) A) : Type 0 where
  pub at : (s : State W) → length (m s).1.events ≤ length s.events + n

length-append : (xs : List Event) (e : Event) → length (xs ++ (e ∷ [])) ≡ suc (length xs)
length-append [] e = refl
length-append (x ∷ xs) e = rw (length-append xs e) refl

module _ {W A : Type 0} where
  pub Sends-pure : (a : A) → Sends {W = W} 0 (pure a)
  unfolding ◌>>=◌
  Sends-pure a = record { at = λ s. omega arith }

  pub Sends-fail : (e : Error) → Sends {W = W} {A = A} 0 (fail e)
  unfolding ◌>>=◌
  Sends-fail e = record { at = λ s. omega arith }

  -- A larger bound holds too.
  pub Sends-more : (n k : ℕ) (m : Exec (State W) A) → n ≤ k → Sends n m → Sends k m
  Sends-more n k m le sends = record { at = λ s. let p = sends.at s in omega arith }

  pub Sends-crash : (why : _) → Sends {W = W} {A = A} 0 (crash why)
  unfolding ◌>>=◌
  Sends-crash why = record { at = λ s. omega arith }

  pub Sends-first : (xs : List A) → Sends {W = W} 0 (first xs)
  unfolding first
  Sends-first [] = Sends-crash _
  Sends-first (x ∷ xs) = Sends-pure x

  pub Sends-if :
      (n : ℕ) (test : Bool) (m k : Exec (State W) A)
      → Sends n m
      → Sends n k
      → Sends n (if test then m else k)
  Sends-if n true m k sm sk = sm
  Sends-if n false m k sm sk = sk

  pub Sends-with_cluster :
      (n : ℕ) (f : UcloudCluster → Exec (State W) A)
      → ((c : UcloudCluster) → Sends n (f c))
      → Sends n (with_cluster f)
  unfolding with_cluster
  Sends-with_cluster n f k = record { at = λ s. (k s.ucloud_cluster).at s }

module _ {W A B : Type 0} where
  Sends-continue :
      (n k total : ℕ) (r : Result A) (f : A → Exec (State W) B) (s : State W)
      → length s.events ≤ total + n
      → ((a : A) → Sends k (f a))
      → length (continue r f s).1.events ≤ total + (n + k)
  Sends-continue n k total (ok a) f s le sends = let p = (sends a).at s in omega arith
  Sends-continue n k total (err e) f s le sends = omega arith
  Sends-continue n k total (panic why) f s le sends = omega arith

  pub Sends-bind :
      (n k : ℕ) (m : Exec (State W) A) (f : A → Exec (State W) B)
      → Sends n m
      → ((a : A) → Sends k (f a))
      → Sends (n + k) (m >>= f)
  unfolding ◌>>=◌
  Sends-bind n k m f sm sf = record {
    at = λ s. Sends-continue n k (length s.events) (m s).0 f (m s).1 (sm.at s) sf;
  }

  -- A first part that sends nothing.
  pub Sends-after :
      (k : ℕ) (m : Exec (State W) A) (f : A → Exec (State W) B)
      → Sends 0 m
      → ((a : A) → Sends k (f a))
      → Sends k (m >>= f)
  Sends-after k m f sm sf = Sends-more (0 + k) k _ (omega arith) (Sends-bind 0 k m f sm sf)

module _ (E : Environment) where
  Sends-call : (c : Call) → Sends 1 (call E c)
  unfolding call
  Sends-call c = record { at = λ s. rw length-append (omega arith) }

  answered :
      (c : Call) (f : Error → Error) (reply : Reply (Body c)) (o : Option Error)
      → Sends {W = E.World} 0 (elim o [ none ↦ pure reply.body | some e ↦ fail (f e) ])
  answered c f reply none = Sends-pure reply.body
  answered c f reply (some e) = Sends-fail (f e)

  pub Sends-request : (f : Error → Error) (c : Call) → Sends 1 (request E f c)
  unfolding request
  Sends-request f c =
      Sends-bind 1 0 (call E c) _ (Sends-call c) (λ reply. answered c f reply reply.error)

  answered_but :
      (c : Call) (code : ℤ) (f : Error → Error) (reply : Reply (Body c)) (o : Option Error)
      → Sends {W = E.World} 0 (elim o [
        | none ↦ pure reply.body
        | some e ↦ if int_eq reply.ret_code code then pure reply.body else fail (f e)
      ])
  answered_but c code f reply none = Sends-pure reply.body
  answered_but c code f reply (some e) =
      Sends-if 0 (int_eq reply.ret_code code) _ _ (Sends-pure reply.body) (Sends-fail (f e))

  pub Sends-request_but :
      (code : ℤ) (f : Error → Error) (c : Call) → Sends 1 (request_but E code f c)
  unfolding request_but
  Sends-request_but code f c =
      Sends-bind 1 0 (call E c) _ (Sends-call c) (λ reply. answered_but c code f reply reply.error)

  pub Sends-now_is : Sends 0 (now_is E)
  unfolding now_is
  Sends-now_is = record { at = λ s. omega arith }

  Sends-sleep_for : (d : ℕ) → Sends 0 (sleep_for E d)
  unfolding sleep_for
  Sends-sleep_for d = record { at = λ s. omega arith }

  Sends-after_test :
      {A : Type 0} (n : ℕ) (l : Loop A) (t : Timer) (hosts : List UhostInstanceSet)
      (next : Timer → Op E (A × Timer)) (check : Check A)
      → ((t' : Timer) → Sends n (next t'))
      → Sends n (after_test E l t hosts next check)
  Sends-after_test n l t hosts next (broken why) k =
      Sends-more 0 n _ (omega arith) (Sends-crash why)
  Sends-after_test n l t hosts next (leave a) k =
      Sends-more 0 n _ (omega arith)
        (Sends-bind 0 0 _ _ Sends-now_is (λ now. Sends-pure (a, stop now t)))
  Sends-after_test n l t hosts next again k = Sends-after n _ _ Sends-now_is (λ now.
      Sends-if n (fired now t) _ _ (Sends-more 0 n _ (omega arith) (Sends-fail (l.timed_out hosts)))
        (Sends-after n _ _ (Sends-sleep_for l.pause) (λ _. k (drained now t))))

  -- A round asks once.
  pub Sends-wait_for :
      {A : Type 0} (rounds : ℕ) (l : Loop A) (t : Timer) → Sends rounds (wait_for E rounds l t)
  unfolding wait_for
  Sends-wait_for zero l t = Sends-crash _
  Sends-wait_for (suc rounds) l t = Sends-more (1 + rounds) (suc rounds) _ (omega arith) (
      Sends-bind 1 rounds _ _ (Sends-request _ (describe_uhost_instance l.asks)) (λ hosts.
        Sends-after_test rounds l t hosts _ (l.test hosts) (λ t'. Sends-wait_for rounds l t')))
