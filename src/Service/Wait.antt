-- ===== src/Service/Wait.antt =====
-- The three waiting loops of cloud/services/uhost.go, which differ in the test that ends them, in
-- their error texts and in their pause: describe the hosts, leave if the test holds, fail if the
-- timer has fired, sleep, and go on.
pub mod Round
pub mod Ends
pub mod Leaves
pub mod Passes
pub mod InTime
pub mod Rules
use cluster_api_provider_ucl.Prelude.{
  ℕ, zero, suc, String, Bool, Option, none, some, List, [], ◌∷◌, if◌then◌else◌, ◌==◌, ◌≡◌, ◌≤◌, ◌+◌,
}
use cluster_api_provider_ucl.Go.{Error, Exec, Result, ok, pure, fail, crash, ◌>>=◌, ◌>>◌}
use cluster_api_provider_ucl.Cloud.{
  Environment, Call, UhostInstanceSet, DescribeUhostInstanceRequest, describe_uhost_instance,
}
use cluster_api_provider_ucl.Scope.{State, Op, request}
use cluster_api_provider_ucl.Service.Timer.{Timer, stop, fired, drained}

-- What the environment's clock promises: a call takes no negative time, and `time.Sleep` pauses for
-- at least its duration.
pub record IsClock (E : Environment) : Type 0 where
  pub invoke_later : (c : Call) (w : E.World) → E.now w ≤ E.now (E.invoke c w).1
  pub sleep_later : (d : ℕ) (w : E.World) → E.now w + d ≤ E.now (E.sleep d w)

-- The answer of a loop's test: leave with a value, go on, or panic.
pub data Check (A : Type 0) : Type 0 where
  leave : A → Check A
  again : Check A
  broken : String → Check A

-- `host := hosts.UHostSet[0]; if host.State == wanted { break }`.
unfoldable pub state_is : String → List UhostInstanceSet → Check UhostInstanceSet
state_is wanted [] = broken "index out of range"
state_is wanted (host ∷ _) = if host.state == wanted then leave host else again

-- `if len(hosts.UHostSet) == 0 { break }`.
unfoldable pub all_gone : List UhostInstanceSet → Check (Unit {0})
all_gone [] = leave tt
all_gone (_ ∷ _) = again

abbrev pub no_rounds : String
no_rounds = "no rounds left"

-- A loop: its request, its test, the two errors and the pause.
pub record Loop (A : Type 0) : Type 0 where
  pub asks : DescribeUhostInstanceRequest
  pub test : List UhostInstanceSet → Check A
  pub describe_failed : Error → Error
  pub timed_out : List UhostInstanceSet → Error
  pub pause : ℕ

module _ (E : Environment) where
  unfoldable pub sleep_for : ℕ → Op E Unit
  sleep_for d s = (ok tt, record s { world = E.sleep d s.world })

  unfoldable pub now_is : Op E ℕ
  now_is s = (ok (E.now s.world), s)

  -- What follows a test: `next` is the rest of the loop after a pause.
  abbrev pub after_test :
      {A : Type 0}
      → Loop A
      → Timer
      → List UhostInstanceSet
      → (Timer → Op E (A × Timer))
      → Check A
      → Op E (A × Timer)
  after_test l t hosts next (broken why) = crash why
  after_test l t hosts next (leave a) = do now ← now_is; pure (a, stop now t)
  after_test l t hosts next again = do
    now ← now_is
    if fired now t then fail (l.timed_out hosts) else do sleep_for l.pause; next (drained now t)

  -- The first argument bounds the number of rounds.
  unfoldable pub wait_for : {A : Type 0} → ℕ → Loop A → Timer → Op E (A × Timer)
  wait_for zero l t = crash no_rounds
  wait_for (suc rounds) l t = do
    hosts ← request E l.describe_failed (describe_uhost_instance l.asks)
    after_test l t hosts (λ t'. wait_for rounds l t') (l.test hosts)
