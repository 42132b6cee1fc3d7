-- ===== src/Service/Instance/Running.antt =====
-- `CreateInstance` returns a running host, and its waiting loop ends.
use mathlib.Core.Path.{subst}
use cluster_api_provider_ucl.Prelude.{
  ◌*◌, ◌≡◌, ◌≢◌, refl, String, true, Bool-cases, inl, inr, List, [], ◌∷◌, ◌==◌,
}
use cluster_api_provider_ucl.Go.{ok, panic}
use cluster_api_provider_ucl.Go.Inversion.{bind-ok, pure-ok}
use cluster_api_provider_ucl.Api.Cluster.{UcloudCluster}
use cluster_api_provider_ucl.Cloud.{
  Environment, UhostInstanceSet, CreateUhostInstanceRequest, create_uhost_instance,
}
use cluster_api_provider_ucl.Scope.{ClusterScope, State, MachineState, with_cluster, on_cluster}
use cluster_api_provider_ucl.Scope.Machine.{MachineScope}
use cluster_api_provider_ucl.Service.Timer.{minute, new_timer}
use cluster_api_provider_ucl.Service.Wait.{IsClock, leave, again, no_rounds, state_is}
use cluster_api_provider_ucl.Service.Wait.Leaves.{wait_for-Leaves}
use cluster_api_provider_ucl.Service.Wait.Rules.{
  Ends-pure, Ends-bind, Ends-request, Ends-first, Ends-timed,
}
use cluster_api_provider_ucl.Service.Terminate.Ends.{state_is-IsSound}
use cluster_api_provider_ucl.Service.Instance.{running_loop, launch, create_instance}

same_host : {h g : UhostInstanceSet} → leave h ≡ leave g → h ≡ g
same_host p = cc

not_left : {A B : Type 0} {a : A} → again ≡ leave a → B
not_left p = cc

pub state_is-leave :
    (wanted : String) (hosts : List UhostInstanceSet) (host : UhostInstanceSet)
    → state_is wanted hosts ≡ leave host
    → (host.state == wanted) ≡ true
unfolding state_is
state_is-leave wanted [] host p = cc
state_is-leave wanted (h ∷ hosts) host p = elim (Bool-cases (h.state == wanted)) [
  | inl e ↦ subst (λ (x : UhostInstanceSet). (x.state == wanted) ≡ true) (same_host (rw e at p)) e
  | inr e ↦ not_left (rw e at p)
]

module _ (E : Environment) (sc : ClusterScope) where
  pub launch-running :
      (c : UcloudCluster) (req : CreateUhostInstanceRequest) (s : State E.World)
      (host : UhostInstanceSet)
      → (launch E sc c req s).0 ≡ ok host
      → (host.state == E.state_running) ≡ true
  unfolding launch
  launch-running c req s host p =
      let created = bind-ok _ _ s host p in
      let named = bind-ok _ _ _ host created.rest in
      let started = bind-ok _ _ _ host named.rest in
      let waited = bind-ok _ _ _ host started.rest in
      let seen = wait_for-Leaves E _ _ _ _ waited.value waited.first in
      subst (λ (x : UhostInstanceSet). (x.state == E.state_running) ≡ true) (pure-ok _ waited.rest)
        (state_is-leave E.state_running _ _ seen.left)

  -- If `CreateInstance` returns a host, then the state of that host is the SDK's running state: a host
  -- that is described in any other state is waited for, or the call fails.
  pub create_instance-running :
      (ms : MachineScope) (s : MachineState E.World) (host : UhostInstanceSet)
      → (create_instance E sc ms s).0 ≡ ok host
      → (host.state == E.state_running) ≡ true
  unfolding create_instance on_cluster with_cluster
  create_instance-running ms s host p =
      let prepared = bind-ok _ _ s host p in
      let built = bind-ok _ _ _ host prepared.rest in launch-running _ built.value _ host built.rest

  -- With a clock that calls do not turn back and that a sleep moves on by its duration, the creation of
  -- a host ends: the 11 rounds that the model gives the loop that waits for the host to run never run
  -- out before the loop's timer of five minutes has fired.
  pub launch-Ends :
      (c : UcloudCluster) (req : CreateUhostInstanceRequest) (s : State E.World)
      → IsClock E
      → (launch E sc c req s).0 ≢ panic no_rounds
  unfolding launch new_timer
  launch-Ends c req s clock =
      (Ends-bind _ _ (Ends-request E _ (create_uhost_instance _)) (λ ids.
          Ends-bind _ _ (Ends-first ids) (λ _.
            Ends-timed E (running_loop E sc c req ids) 10 (new_timer (5 * minute)) _ clock
              (state_is-IsSound E.state_running) (λ now. refl) (λ r. Ends-pure _)))).at
        s
