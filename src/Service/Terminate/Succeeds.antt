-- ===== src/Service/Terminate/Succeeds.antt =====
-- `terminateUHost` succeeds when the host stops and goes in time.
use cluster_api_provider_ucl.Prelude.{
  ℕ, ◌*◌, ◌+◌, ◌<◌, ◌≡◌, refl, String, false, none, List, ◌∷◌, arith,
}
use cluster_api_provider_ucl.Go.{ok, ◌>>=◌}
use cluster_api_provider_ucl.Api.Cluster.{UcloudCluster}
use cluster_api_provider_ucl.Cloud.{
  Environment, Call, UhostInstanceSet, describe_uhost_instance, poweroff_uhost_instance,
}
use cluster_api_provider_ucl.Scope.{State, with_cluster, call}
use cluster_api_provider_ucl.Scope.Cluster
use cluster_api_provider_ucl.Scope.Calls.{reply_to, after_call, request-ok}
use cluster_api_provider_ucl.Service.Call.{request_but}
use cluster_api_provider_ucl.Service.Timer.{Timer, minute, second, new_timer, reset}
use cluster_api_provider_ucl.Service.Wait.{IsClock, now_is}
use cluster_api_provider_ucl.Service.Wait.Passes.{Promises, Runs, wait_for-Succeeds}
use cluster_api_provider_ucl.Service.Wait.InTime.{IsPunctual, wait_for-Exit}
use cluster_api_provider_ucl.Service.Terminate.{
  describe_host, stopped_loop, deleted_loop, power_off, send_terminate, destroy, shut_down,
  terminate_uhost,
}
use cluster_api_provider_ucl.Service.Terminate.Stale.{terminate_call}

abbrev pub power_off_call : UcloudCluster → String → String → Call
power_off_call c id zone = poweroff_uhost_instance (record {
  region = Cluster.region c;
  project_id = Cluster.project_id c;
  zone = zone;
  uhost_id = id;
})

abbrev pub first_look : UcloudCluster → String → String → Call
first_look c id zone = describe_uhost_instance (describe_host c id zone)

-- What UCloud promises of a host that was powered off at the time `start`, in the worlds with `V`: it
-- is shown as stopped after `stop_delay`, a request to terminate it is accepted, and in the worlds with
-- `G`, which follow such a request of the time `T`, it is shown no more after `gone_delay`.
pub record Cooperates (E : Environment) (c : UcloudCluster) (id zone : String)
    (V : E.World → Type 0) (G : ℕ → E.World → Type 0)
    (start stop_delay gone_delay latency slack : ℕ) : Type 0 where
  pub stops : Promises E (stopped_loop E c id zone) V (start + stop_delay) latency
  pub punctual : IsPunctual E (10 * second) V slack
  pub terminates : (w : E.World) → V w → (E.invoke (terminate_call E c id zone) w).0.error ≡ none
  pub going :
      (w : E.World)
      → V w
      → G
          (E.now (E.invoke (terminate_call E c id zone) w).1)
          (E.invoke (terminate_call E c id zone) w).1
  pub goes : (T : ℕ) → Promises E (deleted_loop E c id zone) (G T) (T + gone_delay) latency

module _ (E : Environment) (c : UcloudCluster) (id zone : String) (clock : IsClock E)
    {V : E.World → Type 0} {G : ℕ → E.World → Type 0}
    {start stop_delay gone_delay latency slack : ℕ}
    (host : Cooperates E c id zone V G start stop_delay gone_delay latency slack)
    (soon_gone : gone_delay + latency < 5 * minute)
    (soon_stopped : stop_delay + 10 * second + slack + 2 * latency < 5 * minute) where
  reset-Runs :
      (now : ℕ) (t : Timer)
      → t.deadline ≡ none
      → t.sent ≡ false
      → Runs (now + 5 * minute) (reset (5 * minute) now t)
  unfolding reset
  reset-Runs now t unset quiet = record { deadline_is = refl; not_sent = rw (unset) quiet }

  destroy-Succeeds :
      (t : Timer) (s : State E.World)
      → V s.world
      → t.deadline ≡ none
      → t.sent ≡ false
      → (destroy E c id zone t s).0 ≡ ok tt
  unfolding destroy send_terminate now_is ◌>>=◌
  destroy-Succeeds t s v unset quiet =
      let s' = after_call E (terminate_call E c id zone) s in
      let now = E.now s'.world in
      let waited =
        wait_for-Succeeds E (deleted_loop E c id zone) (host.goes now) clock 30 (now + 5 * minute)
          (reset (5 * minute) now t) s' (host.going s.world v) (reset-Runs now t unset quiet)
          (omega arith) (omega arith) in
      rw (request-ok E (terminate_call E c id zone) s _ (host.terminates s.world v))
        (rw waited.1 refl)

  shut_down-Succeeds :
      (s : State E.World)
      → (reply_to E (power_off_call c id zone) s).error ≡ none
      → V (after_call E (power_off_call c id zone) s).world
      → start ≡ E.now (after_call E (power_off_call c id zone) s).world
      → (shut_down E c id zone s).0 ≡ ok tt
  unfolding shut_down power_off now_is new_timer ◌>>=◌
  shut_down-Succeeds s accepted v now_is_start =
      let s' = after_call E (power_off_call c id zone) s in
      let now = E.now s'.world in
      let out =
        wait_for-Exit E (stopped_loop E c id zone) host.stops clock host.punctual (now + 5 * minute)
          (omega arith) 30 (new_timer (5 * minute) now) s' v
          (record { deadline_is = refl; not_sent = refl }) (omega arith) (omega arith) in
      rw (request-ok E (power_off_call c id zone) s _ accepted)
        (rw out.returned (destroy-Succeeds out.value.1 _ out.stays out.unset out.quiet))

module _ (E : Environment) (id zone : String) (s : State E.World) where
  abbrev pub looked : State E.World
  looked = after_call E (first_look s.ucloud_cluster id zone) s

  abbrev pub powered_off : State E.World
  powered_off = after_call E (power_off_call s.ucloud_cluster id zone) looked

  -- Say that UCloud shows a host with the id and accepts the request to power it off, and that from
  -- then on it cooperates: each look at the host succeeds within a bounded time, the host is shown as
  -- stopped after some delay, the request to terminate it is accepted, and after another delay it is
  -- shown no more; a pause ends at most some time late, and the clock is not turned back. If the first
  -- delay, the pause, its lateness and two looks take less than five minutes together, and the second
  -- delay and a look too, then `terminateUHost` succeeds.
  pub terminate_uhost-Succeeds :
      {V : E.World → Type 0} {G : ℕ → E.World → Type 0} {stop_delay gone_delay latency slack : ℕ}
      (h : UhostInstanceSet) (hs : List UhostInstanceSet)
      → IsClock E
      → (reply_to E (first_look s.ucloud_cluster id zone) s).error ≡ none
      → (reply_to E (first_look s.ucloud_cluster id zone) s).body ≡ h ∷ hs
      → (reply_to E (power_off_call s.ucloud_cluster id zone) looked).error ≡ none
      → V powered_off.world
      → Cooperates E s.ucloud_cluster id zone V G
          (E.now powered_off.world)
          stop_delay
          gone_delay
          latency
          slack
      → gone_delay + latency < 5 * minute
      → stop_delay + 10 * second + slack + 2 * latency < 5 * minute
      → (terminate_uhost E id zone s).0 ≡ ok tt
  unfolding terminate_uhost with_cluster request_but call ◌>>=◌
  terminate_uhost-Succeeds h hs clock answered there accepted v host soon_gone soon_stopped =
      rw (answered, there)
        (shut_down-Succeeds E s.ucloud_cluster id zone clock host soon_gone soon_stopped looked
          accepted v refl)
