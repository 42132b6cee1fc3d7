-- ===== src/Service/Terminate/Sends.antt =====
-- How often `terminateUHost` and the creation of a host ask UCloud.
use cluster_api_provider_ucl.Prelude.{◌+◌, ◌*◌, ◌≤◌, ◌≢◌, String, List, [], ◌∷◌, length, arith}
use cluster_api_provider_ucl.Go.{pure, panic}
use cluster_api_provider_ucl.Api.Cluster.{UcloudCluster}
use cluster_api_provider_ucl.Cloud.{
  Environment, UhostInstanceSet, describe_uhost_instance, poweroff_uhost_instance,
  terminate_uhost_instance,
}
use cluster_api_provider_ucl.Scope.{State}
use cluster_api_provider_ucl.Service.Timer.{Timer, reset, new_timer, minute}
use cluster_api_provider_ucl.Service.Sends.{
  Sends, Sends-pure, Sends-bind, Sends-more, Sends-with_cluster, Sends-request, Sends-request_but,
  Sends-now_is, Sends-wait_for,
}
use cluster_api_provider_ucl.Service.Wait.{IsClock, no_rounds}
use cluster_api_provider_ucl.Service.Terminate.Ends.{terminate_uhost-Ends}
use cluster_api_provider_ucl.Service.Terminate.{
  power_off, send_terminate, stopped_loop, deleted_loop, destroy, shut_down, terminate_uhost,
}

module _ (E : Environment) where
  Sends-destroy :
      (c : UcloudCluster) (id zone : String) (t : Timer) → Sends 32 (destroy E c id zone t)
  unfolding destroy send_terminate
  Sends-destroy c id zone t =
      Sends-bind 1 31 _ _ (Sends-request E _ (terminate_uhost_instance _)) (λ _.
        Sends-bind 0 31 _ _ (Sends-now_is E) (λ now.
          Sends-bind 31 0 _ _
            (Sends-wait_for E 31 (deleted_loop E c id zone) (reset (5 * minute) now t))
            (λ _. Sends-pure tt)))

  Sends-shut_down : (c : UcloudCluster) (id zone : String) → Sends 64 (shut_down E c id zone)
  unfolding shut_down power_off
  Sends-shut_down c id zone =
      Sends-bind 1 63 _ _ (Sends-request E _ (poweroff_uhost_instance _)) (λ _.
        Sends-bind 0 63 _ _ (Sends-now_is E) (λ start.
          Sends-bind 31 32 _ _
            (Sends-wait_for E 31 (stopped_loop E c id zone) (new_timer (5 * minute) start))
            (λ stopped. Sends-destroy c id zone stopped.1)))

  if_there :
      (c : UcloudCluster) (id zone : String) (hosts : List UhostInstanceSet)
      → Sends {W = E.World} 64 (elim hosts [ [] ↦ pure tt | _ ∷ _ ↦ shut_down E c id zone ])
  if_there c id zone [] = Sends-more 0 64 _ (omega arith) (Sends-pure tt)
  if_there c id zone (h ∷ hs) = Sends-shut_down c id zone

  length-sent :
      (id zone : String) (s : State E.World)
      → length (terminate_uhost E id zone s).1.events ≤ length s.events + 65
  unfolding terminate_uhost
  length-sent id zone s =
      (Sends-with_cluster 65 _ (λ c.
          Sends-bind 1 64 _ _ (Sends-request_but E _ _ (describe_uhost_instance _))
            (λ hosts. if_there c id zone hosts))).at
        s

  -- With a clock that calls do not turn back and that a sleep moves on by its duration, a call of
  -- `terminateUHost` comes to its end within at most 65 requests, whatever the answers: the first look
  -- at the host, the request to power it off, 31 looks, the request to terminate it, and 31 looks. The
  -- model's 31 rounds for each of the two loops never run out before the loop's timer has fired.
  pub length-terminate_uhost :
      IsClock E
      → (id zone : String) (s : State E.World)
      → ((terminate_uhost E id zone s).0 ≢ panic no_rounds)
        × (length (terminate_uhost E id zone s).1.events ≤ length s.events + 65)
  length-terminate_uhost clock id zone s =
      (terminate_uhost-Ends E clock id zone s, length-sent id zone s)
