-- ===== src/Service/Terminate/Stale.antt =====
-- A value that the first loop has left in the timer's channel ends the second loop of
-- `terminateUHost`.
use cluster_api_provider_ucl.Prelude.{
  ℕ, ◌*◌, ◌≡◌, refl, String, leb, Option-cases, Bool-cases, inl, inr, true, none, List, [], ◌∷◌,
}
use cluster_api_provider_ucl.Go.{errorf, err, ◌>>=◌}
use cluster_api_provider_ucl.Api.Cluster.{UcloudCluster}
use cluster_api_provider_ucl.Cloud.{Environment, UhostInstanceSet, Call, terminate_uhost_instance}
use cluster_api_provider_ucl.Scope.{State}
use cluster_api_provider_ucl.Scope.Calls.{reply_to, after_call, request-ok}
use cluster_api_provider_ucl.Scope.Cluster
use cluster_api_provider_ucl.Service.Timer.{Timer, minute, reset, fired, settle}
use cluster_api_provider_ucl.Service.Wait.{all_gone, now_is}
use cluster_api_provider_ucl.Service.Wait.Round.{asking, wait_for-answered}
use cluster_api_provider_ucl.Service.Terminate.{deleted_loop, send_terminate, destroy}

settle-sent : (now : ℕ) (t : Timer) → t.sent ≡ true → (settle now t).sent ≡ true
settle-sent now t p = elim (Option-cases t.deadline) [
  | inl e ↦ rw e p
  | inr (d, e) ↦ elim (Bool-cases (leb d now)) [ inl q ↦ rw (e, q) refl | inr q ↦ rw (e, q) p ]
]

fired-reset : (d now later : ℕ) (t : Timer) → t.sent ≡ true → fired later (reset d now t) ≡ true
unfolding fired reset
fired-reset d now later t p = settle-sent later (reset d now t) (settle-sent now t p)

module _ (E : Environment) (c : UcloudCluster) (id zone : String) where
  abbrev pub terminate_call : Call
  terminate_call = terminate_uhost_instance (record {
    region = Cluster.region c;
    project_id = Cluster.project_id c;
    zone = zone;
    uhost_id = id;
    release_eip = true;
    release_udisk = true;
  })

  abbrev pub look_call : Call
  look_call = asking E (deleted_loop E c id zone)

  -- If the timer's channel still holds a value when the second loop of `terminateUHost` resets the
  -- timer, then the loop does not wait for five minutes: where the host is still described after the
  -- request to terminate it, the method fails with the timeout error after one look and no sleep.
  pub destroy-stale :
      (t : Timer) (s : State E.World) (host : UhostInstanceSet) (hosts : List UhostInstanceSet)
      → t.sent ≡ true
      → (reply_to E terminate_call s).error ≡ none
      → (reply_to E look_call (after_call E terminate_call s)).error ≡ none
      → (reply_to E look_call (after_call E terminate_call s)).body ≡ host ∷ hosts
      → destroy E c id zone t s ≡ (
        err (errorf "waiting for uhost %s deleted timeout" (id ∷ [])),
        after_call E look_call (after_call E terminate_call s),
      )
  unfolding destroy send_terminate ◌>>=◌ now_is all_gone
  destroy-stale t s host hosts sent asked answered still =
      rw
        (
          request-ok E terminate_call s _ asked,
          wait_for-answered E (deleted_loop E c id zone) 30 _ (after_call E terminate_call s)
              answered,
          still,
          fired-reset (5 * minute) (E.now (after_call E terminate_call s).world)
              (E.now (after_call E look_call (after_call E terminate_call s)).world) t sent,
        )
        refl
