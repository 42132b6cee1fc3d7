-- ===== src/Service/Wait/Passes.antt =====
-- A waiting loop succeeds when what it waits for happens in time.
use cluster_api_provider_ucl.Prelude.{
  String, ℕ, zero, suc, ◌+◌, ◌*◌, ◌≤◌, ◌<◌, ◌≡◌, ◌≢◌, refl, false, Bool-cases, inl, inr, none, some,
  List, leb, arith,
}
use cluster_api_provider_ucl.Go.{ok, ◌>>=◌}
use cluster_api_provider_ucl.Cloud.{Environment, UhostInstanceSet}
use cluster_api_provider_ucl.Scope.{State, Op}
use cluster_api_provider_ucl.Scope.Calls.{after_call}
use cluster_api_provider_ucl.Service.Timer.{Timer, fired, drained}
use cluster_api_provider_ucl.Service.Wait.{
  IsClock, Loop, Check, leave, again, broken, now_is, sleep_for, after_test, wait_for,
}
use cluster_api_provider_ucl.Service.Wait.Ends.{moved}
use cluster_api_provider_ucl.Service.Wait.Round.{asking, hosts_of, wait_for-answered}

-- The test leaves the loop with a value.
abbrev pub Passes : {A : Type 0} → Check A → Type 0
Passes {A} check = (a : A) × (check ≡ leave a)

-- What UCloud promises of the hosts that the loop asks for, in the worlds with `V`, which no such
-- request and no pause leaves: the request succeeds within `latency`, there is a host to test, and
-- from the time `ready_at` on the test passes.
pub record Promises (E : Environment) {A : Type 0} (l : Loop A) (V : E.World → Type 0)
    (ready_at latency : ℕ) : Type 0 where
  pub asked : (w : E.World) → V w → V (E.invoke (asking E l) w).1
  pub slept : (w : E.World) → V w → V (E.sleep l.pause w)
  pub answers : (w : E.World) → V w → (E.invoke (asking E l) w).0.error ≡ none
  pub quick : (w : E.World) → V w → E.now (E.invoke (asking E l) w).1 ≤ E.now w + latency
  pub whole :
      (w : E.World) (why : String) → V w → l.test (E.invoke (asking E l) w).0.body ≢ broken why
  pub passes :
      (w : E.World) → V w → ready_at ≤ E.now w → Passes (l.test (E.invoke (asking E l) w).0.body)

-- The timer runs and has sent nothing.
pub record Runs (d : ℕ) (t : Timer) : Type 0 where
  pub deadline_is : t.deadline ≡ some d
  pub not_sent : t.sent ≡ false

module _ (E : Environment) {A : Type 0} (l : Loop A) where
  -- It returns a value.
  abbrev Succeeds : Op E (A × Timer) → State E.World → Type 0
  Succeeds m s = (r : A × Timer) × ((m s).0 ≡ ok r)

  pub not_fired : (now d : ℕ) (t : Timer) → Runs d t → now < d → fired now t ≡ false
  unfolding fired
  not_fired now d t r early = let e = r.deadline_is in let f = r.not_sent in ground arith

  pub still-Runs : (now d : ℕ) (t : Timer) → Runs d t → now < d → Runs d (drained now t)
  unfolding drained
  still-Runs now d t r early = record {
    deadline_is = let e = r.deadline_is in ground arith;
    not_sent = refl;
  }

  -- The state after a round that goes on.
  abbrev pub rested : State E.World → State E.World
  rested s = record s { world = E.sleep l.pause s.world }

  -- Before the deadline a round succeeds if the next one does.
  after_test-Succeeds :
      (t : Timer) (hosts : List UhostInstanceSet) (next : Timer → Op E (A × Timer))
      (check : Check A) (s : State E.World)
      → ((why : String) → check ≢ broken why)
      → (check ≡ again → Succeeds (after_test E l t hosts next again) s)
      → Succeeds (after_test E l t hosts next check) s
  unfolding ◌>>=◌ now_is
  after_test-Succeeds t hosts next (broken why) s whole k = absurd (whole why refl)
  after_test-Succeeds t hosts next (leave a) s whole k = (_, refl)
  after_test-Succeeds t hosts next again s whole k = k refl

  goes_on :
      (t : Timer) (d : ℕ) (hosts : List UhostInstanceSet) (next : Timer → Op E (A × Timer))
      (s : State E.World)
      → Runs d t
      → E.now s.world < d
      → ((t' : Timer) → Runs d t' → Succeeds (next t') (rested s))
      → Succeeds (after_test E l t hosts next again) s
  unfolding ◌>>=◌ now_is sleep_for
  goes_on t d hosts next s runs early k =
      rw (not_fired (E.now s.world) d t runs early)
        (k (drained (E.now s.world) t) (still-Runs (E.now s.world) d t runs early))

  pub no_again : {check : Check A} → Passes check → check ≢ again
  no_again (a, p) q = cc

  module _ {V : E.World → Type 0} {ready_at latency : ℕ}
      (promises : Promises E l V ready_at latency) (clock : IsClock E) where
    round-Succeeds :
        (rounds : ℕ) (t : Timer) (s : State E.World)
        → V s.world
        → (l.test (hosts_of E l s) ≡ again
            → Succeeds
                (after_test E l t (hosts_of E l s) (λ t'. wait_for E rounds l t') again)
                (after_call E (asking E l) s))
        → Succeeds (wait_for E (suc rounds) l t) s
    round-Succeeds rounds t s v k =
        rw (wait_for-answered E l rounds t s (promises.answers s.world v)) (
          after_test-Succeeds t (hosts_of E l s) (λ t'. wait_for E rounds l t') _ _
            (λ why. promises.whole s.world why v) k)

    -- The bound of the rounds, the deadline and the promise are about one clock.
    pub wait_for-Succeeds :
        (rounds d : ℕ) (t : Timer) (s : State E.World)
        → V s.world
        → Runs d t
        → ready_at + latency < d
        → d ≤ E.now s.world + rounds * l.pause
        → Succeeds (wait_for E (suc rounds) l t) s
    wait_for-Succeeds zero d t s v runs early enough =
        round-Succeeds zero t s v
          (λ p. absurd (no_again (promises.passes s.world v (omega arith)) p))
    wait_for-Succeeds (suc rounds) d t s v runs early enough =
        round-Succeeds (suc rounds) t s v (λ p. elim (Bool-cases (leb ready_at (E.now s.world))) [
          | inl late ↦ absurd (no_again (promises.passes s.world v (ground arith)) p)
          | inr soon ↦
              goes_on t d (hosts_of E l s) (λ t'. wait_for E (suc rounds) l t')
                (after_call E (asking E l) s) runs
                (let q = promises.quick s.world v in ground arith)
                (λ t' runs'.
                  wait_for-Succeeds rounds d t' (rested (after_call E (asking E l) s))
                    (promises.slept _ (promises.asked s.world v)) runs' early
                    (moved E l rounds (clock.invoke_later (asking E l) s.world)
                      (clock.sleep_later l.pause _) enough))
        ])
