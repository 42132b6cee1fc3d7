-- ===== src/Service/Wait/Ends.antt =====
-- The waiting loops end: each pause moves the clock towards the timer's deadline.
use cluster_api_provider_ucl.Prelude.{
  ℕ, zero, suc, ◌+◌, ◌*◌, ◌≤◌, ◌≡◌, ◌≢◌, true, false, Bool-cases, Option-cases, inl, inr, some,
  List, leb, arith,
}
use cluster_api_provider_ucl.Go.{panic, ◌>>=◌}
use cluster_api_provider_ucl.Cloud.{Environment, Call, UhostInstanceSet, describe_uhost_instance}
use cluster_api_provider_ucl.Scope.{State, Op}
use cluster_api_provider_ucl.Scope.Calls.{reply_to, after_call, request-ok, request-err}
use cluster_api_provider_ucl.Service.Timer.{Timer, fired, drained}
use cluster_api_provider_ucl.Service.Wait.{
  IsClock, Loop, Check, leave, again, broken, no_rounds, now_is, sleep_for, after_test, wait_for,
}

-- The test ends in no panic that could be taken for the end of the rounds.
abbrev pub IsSound : {A : Type 0} → Loop A → Type 0
IsSound l = (hosts : List UhostInstanceSet) → l.test hosts ≢ broken no_rounds

module _ (E : Environment) {A : Type 0} (l : Loop A) where
  abbrev Ended : Op E (A × Timer) → State E.World → Type 0
  Ended m s = (m s).0 ≢ panic no_rounds

  deadline-drained :
      (now d : ℕ) (t : Timer)
      → t.deadline ≡ some d
      → leb d now ≡ false
      → (drained now t).deadline ≡ some d
  unfolding drained
  deadline-drained now d t e late = ground arith

  fired_late : (now d : ℕ) (t : Timer) → t.deadline ≡ some d → leb d now ≡ true → fired now t ≡ true
  unfolding fired
  fired_late now d t e late = ground arith

  after_test-Ended :
      (t : Timer) (d : ℕ) (hosts : List UhostInstanceSet) (next : Timer → Op E (A × Timer))
      (check : Check A) (s : State E.World)
      → t.deadline ≡ some d
      → check ≢ broken no_rounds
      → ((t' : Timer)
          → t'.deadline ≡ some d
          → leb d (E.now s.world) ≡ false
          → Ended (next t') (record s { world = E.sleep l.pause s.world }))
      → Ended (after_test E l t hosts next check) s
  unfolding ◌>>=◌ now_is sleep_for
  after_test-Ended t d hosts next (broken why) s e b k = λ p. b (ground arith)
  after_test-Ended t d hosts next (leave a) s e b k = λ p. cc
  after_test-Ended t d hosts next again s e b k = elim (Bool-cases (leb d (E.now s.world))) [
    | inl late ↦ rw (fired_late (E.now s.world) d t e late) (λ p. cc)
    | inr early ↦
        ground (
          arith,
          k (drained (E.now s.world) t) (deadline-drained (E.now s.world) d t e early) early,
        )
  ]

  module _ (s : State E.World) where
    abbrev asking : Call
    asking = describe_uhost_instance l.asks

    abbrev hosts_of : List UhostInstanceSet
    hosts_of = (reply_to E asking s).body

  -- The state after a round that goes on.
  abbrev slept : State E.World → State E.World
  slept s = record (after_call E (asking s) s) {
    world = E.sleep l.pause (after_call E (asking s) s).world;
  }

  -- One round, by the error of its request.
  round-Ended :
      (rounds : ℕ) (t : Timer) (s : State E.World)
      → Ended
          (after_test E l t (hosts_of s) (λ t'. wait_for E rounds l t') (l.test (hosts_of s)))
          (after_call E (asking s) s)
      → Ended (wait_for E (suc rounds) l t) s
  unfolding wait_for ◌>>=◌
  round-Ended rounds t s h = elim (Option-cases (reply_to E (asking s) s).error) [
    | inl e ↦ rw (request-ok E (asking s) s l.describe_failed e) h
    | inr (e, p) ↦ rw (request-err E (asking s) s l.describe_failed e p) (λ q. cc)
  ]

  late_by : {d a b : ℕ} → a ≤ b → d ≤ a + 0 * l.pause → leb d b ≡ false → ⊥
  late_by {d} {a} {b} le enough early = ground arith

  pub moved :
      {d a b c : ℕ} (r : ℕ)
      → a ≤ b
      → b + l.pause ≤ c
      → d ≤ a + suc r * l.pause
      → d ≤ c + r * l.pause
  moved {d} {a} {b} {c} r p q enough = omega arith

  pub wait_for-Ended :
      IsClock E
      → IsSound l
      → (rounds d : ℕ) (t : Timer) (s : State E.World) → t.deadline ≡ some d
      → d ≤ E.now s.world + rounds * l.pause
      → Ended (wait_for E (suc rounds) l t) s
  wait_for-Ended clock sound zero d t s e enough = round-Ended zero t s (
      after_test-Ended t d (hosts_of s) (λ t'. wait_for E zero l t') _ (after_call E (asking s) s) e
        (sound _)
        (λ t' e' early. absurd (late_by (clock.invoke_later (asking s) s.world) enough early)))
  wait_for-Ended clock sound (suc rounds) d t s e enough = round-Ended (suc rounds) t s (
      after_test-Ended t d (hosts_of s) (λ t'. wait_for E (suc rounds) l t') _
        (after_call E (asking s) s) e (sound _)
        (λ t' e' early. wait_for-Ended clock sound rounds d t' (slept s) e' (
          moved rounds (clock.invoke_later (asking s) s.world) (clock.sleep_later l.pause _)
            enough)))
