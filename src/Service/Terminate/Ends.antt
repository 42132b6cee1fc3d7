-- ===== src/Service/Terminate/Ends.antt =====
-- `terminateUHost` ends: the 31 rounds of its two loops are enough for their timers.
use cluster_api_provider_ucl.Prelude.{String, ◌*◌, ◌≢◌, refl, List, [], ◌∷◌, arith}
use cluster_api_provider_ucl.Go.{panic, pure}
use cluster_api_provider_ucl.Api.Cluster.{UcloudCluster}
use cluster_api_provider_ucl.Cloud.{
  Environment, UhostInstanceSet, describe_uhost_instance, poweroff_uhost_instance,
  terminate_uhost_instance,
}
use cluster_api_provider_ucl.Scope.{State}
use cluster_api_provider_ucl.Service.Timer.{Timer, minute, new_timer, reset}
use cluster_api_provider_ucl.Service.Wait.{IsClock, no_rounds, broken, state_is, all_gone}
use cluster_api_provider_ucl.Service.Wait.Rules.{
  out_of_range, Ends, Ends-pure, Ends-bind, Ends-with_cluster, Ends-request, Ends-request_but,
  Ends-timed,
}
use cluster_api_provider_ucl.Service.Terminate.{
  power_off, send_terminate, destroy, shut_down, terminate_uhost, stopped_loop, deleted_loop,
}

pub state_is-IsSound :
    (wanted : String) (hosts : List UhostInstanceSet) → state_is wanted hosts ≢ broken no_rounds
unfolding state_is
state_is-IsSound wanted [] = λ p. out_of_range (cc)
state_is-IsSound wanted (h ∷ hosts) = ground arith

all_gone-IsSound : (hosts : List UhostInstanceSet) → all_gone hosts ≢ broken no_rounds
unfolding all_gone
all_gone-IsSound [] = λ p. cc
all_gone-IsSound (h ∷ hosts) = λ p. cc

module _ (E : Environment) (clock : IsClock E) where
  Ends-destroy : (c : UcloudCluster) (id zone : String) (t : Timer) → Ends (destroy E c id zone t)
  unfolding destroy send_terminate reset
  Ends-destroy c id zone t = Ends-bind _ _ (Ends-request E _ (terminate_uhost_instance _)) (λ _.
      Ends-timed E (deleted_loop E c id zone) 30 (λ now. reset (5 * minute) now t) _ clock
        all_gone-IsSound (λ now. refl) (λ _. Ends-pure tt))

  Ends-shut_down : (c : UcloudCluster) (id zone : String) → Ends (shut_down E c id zone)
  unfolding shut_down power_off new_timer
  Ends-shut_down c id zone = Ends-bind _ _ (Ends-request E _ (poweroff_uhost_instance _)) (λ _.
      Ends-timed E (stopped_loop E c id zone) 30 (new_timer (5 * minute)) _ clock
        (state_is-IsSound E.state_stopped) (λ now. refl) (λ r. Ends-destroy c id zone r.1))

  described :
      (c : UcloudCluster) (id zone : String) (hosts : List UhostInstanceSet)
      → Ends {S = State E.World} (elim hosts [ [] ↦ pure tt | _ ∷ _ ↦ shut_down E c id zone ])
  described c id zone [] = Ends-pure tt
  described c id zone (h ∷ hosts) = Ends-shut_down c id zone

  -- With a clock that calls do not turn back and that a sleep moves on by its duration, a call of
  -- `terminateUHost` ends in Go's sense in every state of the world: the 31 rounds that the model gives
  -- each of the two waiting loops never run out before the loop's timer of five minutes has fired.
  pub terminate_uhost-Ends :
      (id zone : String) (s : State E.World) → (terminate_uhost E id zone s).0 ≢ panic no_rounds
  unfolding terminate_uhost
  terminate_uhost-Ends id zone s =
      (Ends-with_cluster _ (λ c.
          Ends-bind _ _ (Ends-request_but E _ _ (describe_uhost_instance _))
            (described c id zone))).at
        s
