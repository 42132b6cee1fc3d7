-- ===== src/Service/Wait/Leaves.antt =====
-- A waiting loop returns only what its test has left it with.
use mathlib.Core.Path.{subst}
use cluster_api_provider_ucl.Service.Wait.Round.{
  asking, hosts_of, wait_for-answered, wait_for-unanswered,
}
use cluster_api_provider_ucl.Prelude.{
  ℕ, zero, suc, ◌≡◌, refl, Bool-cases, Option-cases, inl, inr, none, List,
}
use cluster_api_provider_ucl.Go.{Error, ok, err, ◌>>=◌}
use cluster_api_provider_ucl.Cloud.{Environment, UhostInstanceSet, describe_uhost_instance}
use cluster_api_provider_ucl.Scope.{State, Op}
use cluster_api_provider_ucl.Scope.Calls.{reply_to, after_call}
use cluster_api_provider_ucl.Service.Timer.{Timer, fired, drained}
use cluster_api_provider_ucl.Service.Wait.{
  Loop, Check, leave, again, broken, now_is, sleep_for, after_test, wait_for,
}

not_ok : {A B : Type 0} {e : Error} {a : A} → err e ≡ ok a → B
not_ok p = cc

module _ (E : Environment) {A : Type 0} (l : Loop A) where
  -- In some state of the world the loop's request succeeded, and its test left with `a`.
  pub record Seen (a : A) : Type 0 where
    pub world : E.World
    pub answered : (E.invoke (describe_uhost_instance l.asks) world).0.error ≡ none
    pub left : l.test (E.invoke (describe_uhost_instance l.asks) world).0.body ≡ leave a

  abbrev Leaves : Op E (A × Timer) → Type 0
  Leaves m = (s : State E.World) (r : A × Timer) → (m s).0 ≡ ok r → Seen r.0

  after_test-Leaves :
      (t : Timer) (hosts : List UhostInstanceSet) (next : Timer → Op E (A × Timer))
      (check : Check A)
      → ((a : A) → check ≡ leave a → Seen a)
      → ((t' : Timer) → Leaves (next t'))
      → Leaves (after_test E l t hosts next check)
  unfolding ◌>>=◌ now_is sleep_for
  after_test-Leaves t hosts next (broken why) see k s r p = cc
  after_test-Leaves t hosts next (leave a) see k s r p = subst Seen (cc) (see a refl)
  after_test-Leaves t hosts next again see k s r p = elim (Bool-cases (fired (E.now s.world) t)) [
    | inl e ↦ not_ok (rw e at p)
    | inr e ↦ k (drained (E.now s.world) t) _ r (rw e at p)
  ]

  pub wait_for-Leaves : (rounds : ℕ) (t : Timer) → Leaves (wait_for E rounds l t)
  unfolding wait_for ◌>>=◌
  wait_for-Leaves zero t s r p = cc
  wait_for-Leaves (suc rounds) t s r p = elim (Option-cases (reply_to E (asking E l) s).error) [
    | inl e ↦
        after_test-Leaves t (hosts_of E l s) (λ t'. wait_for E rounds l t')
          (l.test (hosts_of E l s)) (λ a q. record { world = s.world; answered = e; left = q })
          (λ t'. wait_for-Leaves rounds t') (after_call E (asking E l) s) r
          (rw (wait_for-answered E l rounds t s e) at p)
    | inr (e, q) ↦ not_ok (rw (wait_for-unanswered E l rounds t s e q) at p)
  ]
