-- ===== src/Service/Holds.antt =====
-- Rules for what the requests and the waiting loops of cloud/services keep, from what a call and a
-- pause keep.
use cluster_api_provider_ucl.Prelude.{
  ℕ, zero, suc, ℤ, Option, none, some, List, int_eq, if◌then◌else◌,
}
use cluster_api_provider_ucl.Go.{Error, pure, fail}
use cluster_api_provider_ucl.Go.Keeps.{
  Keeps, Keeps-pure, Keeps-fail, Keeps-crash, Keeps-if, Keeps-bind,
}
use cluster_api_provider_ucl.Cloud.{
  Environment, Call, Body, Reply, UhostInstanceSet, describe_uhost_instance,
}
use cluster_api_provider_ucl.Scope.{State, Op, call, request}
use cluster_api_provider_ucl.Service.Call.{request_but}
use cluster_api_provider_ucl.Service.Timer.{Timer, fired, drained, stop}
use cluster_api_provider_ucl.Service.Wait.{
  Loop, Check, leave, again, broken, now_is, sleep_for, after_test, wait_for,
}

module _ (E : Environment) {P : State E.World → Type 0} where
  answered :
      (c : Call) (f : Error → Error) (reply : Reply (Body c)) (o : Option Error)
      → Keeps P (elim o [ none ↦ pure reply.body | some e ↦ fail (f e) ])
  answered c f reply none = Keeps-pure reply.body
  answered c f reply (some e) = Keeps-fail (f e)

  pub Keeps-request_of :
      (f : Error → Error) (c : Call) → Keeps P (call E c) → Keeps P (request E f c)
  unfolding request
  Keeps-request_of f c kept = Keeps-bind (call E c) _ kept (λ reply. answered c f reply reply.error)

  answered_but :
      (c : Call) (code : ℤ) (f : Error → Error) (reply : Reply (Body c)) (o : Option Error)
      → Keeps P (elim o [
        | none ↦ pure reply.body
        | some e ↦ if int_eq reply.ret_code code then pure reply.body else fail (f e)
      ])
  answered_but c code f reply none = Keeps-pure reply.body
  answered_but c code f reply (some e) =
      Keeps-if (int_eq reply.ret_code code) _ _ (λ _. Keeps-pure reply.body) (λ _. Keeps-fail (f e))

  pub Keeps-request_but_of :
      (code : ℤ) (f : Error → Error) (c : Call)
      → Keeps P (call E c)
      → Keeps P (request_but E code f c)
  unfolding request_but
  Keeps-request_but_of code f c kept =
      Keeps-bind (call E c) _ kept (λ reply. answered_but c code f reply reply.error)

  pub Keeps-clock : Keeps P (now_is E)
  unfolding now_is
  Keeps-clock = record { at = λ s h. h }

  Keeps-after_test :
      {A : Type 0} (l : Loop A) (t : Timer) (hosts : List UhostInstanceSet)
      (next : Timer → Op E (A × Timer)) (check : Check A)
      → Keeps P (sleep_for E l.pause)
      → ((t' : Timer) → Keeps P (next t'))
      → Keeps P (after_test E l t hosts next check)
  Keeps-after_test l t hosts next (broken why) slept k = Keeps-crash why
  Keeps-after_test l t hosts next (leave a) slept k =
      Keeps-bind (now_is E) _ Keeps-clock (λ now. Keeps-pure (a, stop now t))
  Keeps-after_test l t hosts next again slept k = Keeps-bind (now_is E) _ Keeps-clock (λ now.
      Keeps-if (fired now t) _ _ (λ _. Keeps-fail (l.timed_out hosts))
        (λ _. Keeps-bind (sleep_for E l.pause) _ slept (λ _. k (drained now t))))

  pub Keeps-wait_for_of :
      {A : Type 0} (rounds : ℕ) (l : Loop A) (t : Timer)
      → Keeps P (call E (describe_uhost_instance l.asks))
      → Keeps P (sleep_for E l.pause)
      → Keeps P (wait_for E rounds l t)
  unfolding wait_for
  Keeps-wait_for_of zero l t asked slept = Keeps-crash _
  Keeps-wait_for_of (suc rounds) l t asked slept =
      Keeps-bind (request E l.describe_failed (describe_uhost_instance l.asks)) _
        (Keeps-request_of l.describe_failed (describe_uhost_instance l.asks) asked)
        (λ hosts.
          Keeps-after_test l t hosts _ (l.test hosts) slept
            (λ t'. Keeps-wait_for_of rounds l t' asked slept))
