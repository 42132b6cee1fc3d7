-- ===== src/Service/Instance/Succeeds.antt =====
-- The creation of a host succeeds when the host comes up in time.
use cluster_api_provider_ucl.Prelude.{
  ℕ, ◌*◌, ◌+◌, ◌<◌, ◌≡◌, refl, String, true, none, List, [], ◌∷◌, ◌==◌, arith,
}
use cluster_api_provider_ucl.Go.{ok, wrap, ◌>>=◌}
use cluster_api_provider_ucl.Api.Cluster.{UcloudCluster}
use cluster_api_provider_ucl.Cloud.{
  Environment, UhostInstanceSet, CreateUhostInstanceRequest, create_uhost_instance,
}
use cluster_api_provider_ucl.Scope.{ClusterScope, State}
use cluster_api_provider_ucl.Scope.Calls.{reply_to, after_call, request-ok}
use cluster_api_provider_ucl.Service.Call.{first}
use cluster_api_provider_ucl.Service.Timer.{Timer, minute, new_timer}
use cluster_api_provider_ucl.Service.Wait.{IsClock, wait_for, now_is}
use cluster_api_provider_ucl.Service.Wait.Passes.{Promises, wait_for-Succeeds, Runs}
use cluster_api_provider_ucl.Service.Instance.{launch, running_loop}
use cluster_api_provider_ucl.Service.Instance.Running.{launch-running}

module _ (E : Environment) (sc : ClusterScope) (c : UcloudCluster)
    (req : CreateUhostInstanceRequest) where
  -- The state after the creation was answered.
  abbrev pub created : State E.World → State E.World
  created s = after_call E (create_uhost_instance req) s

  -- The reading of the loop's value.
  launch-waited :
      (s : State E.World) (id : String) (ids : List String) (r : UhostInstanceSet × Timer)
      → (reply_to E (create_uhost_instance req) s).error ≡ none
      → (reply_to E (create_uhost_instance req) s).body ≡ id ∷ ids
      → (wait_for E 11
          (running_loop E sc c req (id ∷ ids))
          (new_timer (5 * minute) (E.now (created s).world))
          (created s)).0
        ≡ ok r
      → (launch E sc c req s).0 ≡ ok r.0
  unfolding launch first now_is ◌>>=◌
  launch-waited s id ids r e b w =
      rw (request-ok E (create_uhost_instance req) s (λ x. wrap x "create uhost failed" []) e)
        (rw b (rw w refl))

  timer-Runs : (now : ℕ) → Runs (now + 5 * minute) (new_timer (5 * minute) now)
  unfolding new_timer
  timer-Runs now = record { deadline_is = refl; not_sent = refl }

  -- Say that UCloud accepts the creation and answers with an id. If from then on every description of
  -- the new host succeeds within a bounded time and shows a host, and that host is shown as running
  -- from some moment on that lies before the five minutes are over by more than that bound, then the
  -- creation succeeds, and the host that it returns is running. The clock is not turned back, and a
  -- pause may take longer than it was asked to.
  pub launch-Succeeds :
      {V : E.World → Type 0} {ready_at latency : ℕ} (s : State E.World) (id : String)
      (ids : List String)
      → IsClock E
      → (reply_to E (create_uhost_instance req) s).error ≡ none
      → (reply_to E (create_uhost_instance req) s).body ≡ id ∷ ids
      → V (created s).world
      → Promises E (running_loop E sc c req (id ∷ ids)) V ready_at latency
      → ready_at + latency < E.now (created s).world + 5 * minute
      → (host : UhostInstanceSet) × ((launch E sc c req s).0 ≡ ok host)
        × ((host.state == E.state_running) ≡ true)
  launch-Succeeds s id ids clock e b v promises early =
      let now = E.now (created s).world in
      let waited =
        wait_for-Succeeds E _ promises clock 10 (now + 5 * minute) _ (created s) v (timer-Runs now)
          early (omega arith) in
      let returned = launch-waited s id ids waited.0 e b waited.1 in
      (waited.0.0, returned, launch-running E sc c req s waited.0.0 returned)
