-- ===== src/Tests/Ledger.antt =====
-- A world that keeps account of what was asked about the host `uhost-1`, which stops when it is powered
-- off: whether it was described as stopped, and whether a host was to be terminated before that.
use cluster_api_provider_ucl.Prelude.{
  suc, ◌+◌, ℕ, ◌≡◌, ◌⊎◌, refl, Bool, true, false, not, ◌&&◌, ◌||◌, none, String, List, [], ◌∷◌, pos,
  ◌==◌,
}
use cluster_api_provider_ucl.Cloud.{
  Environment, Call, UhostInstanceSet, describe_uhost_instance, poweroff_uhost_instance,
  terminate_uhost_instance,
}
use cluster_api_provider_ucl.Scope.{State}
use cluster_api_provider_ucl.Service.Terminate.{terminate_uhost}
use cluster_api_provider_ucl.Service.Terminate.Stopped.{IsMild, Tracks, terminate_uhost-Tracks}
use cluster_api_provider_ucl.Tests.Samples.{whole_cluster, host_in, at_zero}
use cluster_api_provider_ucl.Tests.World.{body, environment_over}

record Ledger : Type 0 where
  time : ℕ
  hosts : List UhostInstanceSet
  seen : Bool
  premature : Bool

abbrev is_stopped : List UhostInstanceSet → Bool
is_stopped [] = false
is_stopped (h ∷ hs) = h.state == "Stopped"

abbrev only_it : List String → Bool
only_it (id ∷ []) = id == "uhost-1"
only_it _ = false

abbrev hosts_after : Call → List UhostInstanceSet → List UhostInstanceSet
hosts_after (poweroff_uhost_instance r) hs = host_in "Stopped" ∷ []
hosts_after (terminate_uhost_instance r) hs = []
hosts_after c hs = hs

abbrev seen_after : Call → Ledger → Bool
seen_after (describe_uhost_instance r) w = w.seen || (only_it r.uhost_ids && is_stopped w.hosts)
seen_after c w = w.seen

abbrev premature_after : Call → Ledger → Bool
premature_after (terminate_uhost_instance r) w =
    w.premature || not (w.seen && r.uhost_id == "uhost-1")
premature_after c w = w.premature

abbrev accountable : Environment
accountable =
    environment_over Ledger
      (λ c w. (
        record { body = body w.hosts [] c; ret_code = pos 0; error = none },
        record {
          time = suc w.time;
          hosts = hosts_after c w.hosts;
          seen = seen_after c w;
          premature = premature_after c w;
        },
      ))
      (λ w. w.time) (λ w. record w { time = suc w.time }) (λ d w. record w { time = w.time + d })

abbrev InOrder : Ledger → Type 0
InOrder w = w.premature ≡ false

abbrev SeenStopped : Ledger → Type 0
SeenStopped w = (w.premature ≡ false) × (w.seen ≡ true)

mild-premature : (c : Call) (w : Ledger) → IsMild c → premature_after c w ≡ w.premature
mild-premature (terminate_uhost_instance r) w m = absurd m
mild-premature c w m = refl

seen-kept : (c : Call) (w : Ledger) → w.seen ≡ true → seen_after c w ≡ true
seen-kept (describe_uhost_instance r) w h = rw h refl
seen-kept c w h = h

accountable-Tracks : Tracks accountable "uhost-1" InOrder SeenStopped
accountable-Tracks = record {
  waits = λ c w m h. rw (mild-premature c w m) h;
  waits_on = λ d w h. h;
  seen = λ r w host hosts asked e described off h. (h, rw (asked, described, off) (or_true w.seen));
  stays = λ c w m h. (rw (mild-premature c w m) h.0, seen-kept c w h.1);
  stays_on = λ d w h. h;
  terminated = λ r w named h. (rw (named, h.0, h.1) refl, h.1);
}
  where
    or_true : (b : Bool) → (b || true) ≡ true
    or_true true = refl
    or_true false = refl

abbrev opened : State Ledger
opened =
    at_zero whole_cluster
      (record { time = 0; hosts = host_in "Running" ∷ []; seen = false; premature = false })

terminate_uhost-Tracks_example :
    InOrder (terminate_uhost accountable "uhost-1" "cn-bj2-02" opened).1.world
    ⊎ SeenStopped (terminate_uhost accountable "uhost-1" "cn-bj2-02" opened).1.world
terminate_uhost-Tracks_example =
    terminate_uhost-Tracks accountable "uhost-1" accountable-Tracks "cn-bj2-02" opened refl
