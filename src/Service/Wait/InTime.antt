-- ===== src/Service/Wait/InTime.antt =====
-- A waiting loop that ends long enough before its deadline leaves a timer that has not fired.
use cluster_api_provider_ucl.Prelude.{
  String, ℕ, zero, suc, ◌+◌, ◌*◌, ◌≤◌, ◌<◌, ◌≡◌, ◌≢◌, refl, false, Bool-cases, inl, inr, none, List,
  leb, arith,
}
use cluster_api_provider_ucl.Go.{Result, ok, ◌>>=◌}
use cluster_api_provider_ucl.Cloud.{Environment, UhostInstanceSet}
use cluster_api_provider_ucl.Scope.{State, Op}
use cluster_api_provider_ucl.Scope.Calls.{after_call}
use cluster_api_provider_ucl.Service.Timer.{Timer, stop, fired}
use cluster_api_provider_ucl.Service.Wait.{
  IsClock, Loop, Check, leave, again, broken, now_is, sleep_for, after_test, wait_for,
}
use cluster_api_provider_ucl.Service.Wait.Ends.{moved}
use cluster_api_provider_ucl.Service.Wait.Round.{asking, hosts_of, wait_for-answered}
use cluster_api_provider_ucl.Service.Wait.Passes.{
  Promises, Runs, not_fired, still-Runs, rested, no_again,
}

-- A pause ends at most `slack` late.
pub record IsPunctual (E : Environment) (pause : ℕ) (V : E.World → Type 0) (slack : ℕ)
    : Type 0 where
  pub rests : (w : E.World) → V w → E.now (E.sleep pause w) ≤ E.now w + pause + slack

-- The loop has returned, and its timer is stopped and has sent nothing.
pub record Exit (E : Environment) {A : Type 0} (V : E.World → Type 0)
    (end : Result (A × Timer) × State E.World) : Type 0 where
  pub value : A × Timer
  pub returned : end.0 ≡ ok value
  pub stays : V end.1.world
  pub unset : value.1.deadline ≡ none
  pub quiet : value.1.sent ≡ false

module _ (E : Environment) {A : Type 0} (l : Loop A) {V : E.World → Type 0} where
  left-Exit :
      (a : A) (t : Timer) (d : ℕ) (hosts : List UhostInstanceSet) (next : Timer → Op E (A × Timer))
      (s : State E.World)
      → V s.world
      → Runs d t
      → E.now s.world < d
      → Exit E V (after_test E l t hosts next (leave a) s)
  unfolding ◌>>=◌ now_is stop fired
  left-Exit a t d hosts next s v runs early = record {
    value = (a, stop (E.now s.world) t);
    returned = refl;
    stays = v;
    unset = refl;
    quiet = not_fired E l (E.now s.world) d t runs early;
  }

  after_test-Exit :
      (t : Timer) (d : ℕ) (hosts : List UhostInstanceSet) (next : Timer → Op E (A × Timer))
      (check : Check A) (s : State E.World)
      → V s.world
      → Runs d t
      → E.now s.world < d
      → ((why : String) → check ≢ broken why)
      → (check ≡ again → Exit E V (after_test E l t hosts next again s))
      → Exit E V (after_test E l t hosts next check s)
  after_test-Exit t d hosts next (broken why) s v runs early whole k = absurd (whole why refl)
  after_test-Exit t d hosts next (leave a) s v runs early whole k =
      left-Exit a t d hosts next s v runs early
  after_test-Exit t d hosts next again s v runs early whole k = k refl

  goes_on :
      (t : Timer) (d : ℕ) (hosts : List UhostInstanceSet) (next : Timer → Op E (A × Timer))
      (s : State E.World)
      → Runs d t
      → E.now s.world < d
      → ((t' : Timer) → Runs d t' → Exit E V (next t' (rested E l s)))
      → Exit E V (after_test E l t hosts next again s)
  unfolding ◌>>=◌ now_is sleep_for
  goes_on t d hosts next s runs early k =
      rw (not_fired E l (E.now s.world) d t runs early)
        (k _ (still-Runs E l (E.now s.world) d t runs early))

  module _ {ready_at latency slack : ℕ} (promises : Promises E l V ready_at latency)
      (clock : IsClock E) (punctual : IsPunctual E l.pause V slack) (d : ℕ)
      (in_time : ready_at + l.pause + slack + 2 * latency < d) where
    round-Exit :
        (rounds : ℕ) (t : Timer) (s : State E.World)
        → V s.world
        → Runs d t
        → E.now s.world + latency < d
        → (l.test (hosts_of E l s) ≡ again
            → Exit E V (
                after_test E l t
                  (hosts_of E l s)
                  (λ t'. wait_for E rounds l t')
                  again
                  (after_call E (asking E l) s)))
        → Exit E V (wait_for E (suc rounds) l t s)
    round-Exit rounds t s v runs soon k =
        rw (wait_for-answered E l rounds t s (promises.answers s.world v)) (
          after_test-Exit t d (hosts_of E l s) (λ t'. wait_for E rounds l t') _ _
            (promises.asked s.world v) runs (let q = promises.quick s.world v in omega arith)
            (λ why. promises.whole s.world why v) k)

    pub wait_for-Exit :
        (rounds : ℕ) (t : Timer) (s : State E.World)
        → V s.world
        → Runs d t
        → E.now s.world + latency < d
        → d ≤ E.now s.world + rounds * l.pause
        → Exit E V (wait_for E (suc rounds) l t s)
    wait_for-Exit zero t s v runs soon enough = absurd (omega arith)
    wait_for-Exit (suc rounds) t s v runs soon enough =
        round-Exit (suc rounds) t s v runs soon (λ p.
          elim (Bool-cases (leb ready_at (E.now s.world))) [
            | inl late ↦ absurd (no_again E l (promises.passes s.world v (ground arith)) p)
            | inr early ↦
                let q = promises.quick s.world v in
                let r = punctual.rests _ (promises.asked s.world v) in
                goes_on t d (hosts_of E l s) (λ t'. wait_for E (suc rounds) l t')
                  (after_call E (asking E l) s) runs (ground arith)
                  (λ t' runs'.
                    wait_for-Exit rounds t' (rested E l (after_call E (asking E l) s))
                      (promises.slept _ (promises.asked s.world v)) runs' (ground arith)
                      (moved E l rounds (clock.invoke_later (asking E l) s.world)
                        (clock.sleep_later l.pause _) enough))
          ])
