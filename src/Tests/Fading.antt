-- ===== src/Tests/Fading.antt =====
-- A world with a clock and one host, which stops when it is powered off and goes when it is terminated.
use cluster_api_provider_ucl.Prelude.{ℕ, suc, ◌+◌, ◌≡◌, refl, none, List, [], ◌∷◌, pos, arith}
use cluster_api_provider_ucl.Api.Cluster.{UcloudCluster}
use cluster_api_provider_ucl.Cloud.{
  Environment, Call, UhostInstanceSet, poweroff_uhost_instance, terminate_uhost_instance,
}
use cluster_api_provider_ucl.Service.Wait.{IsClock, state_is, all_gone}
use cluster_api_provider_ucl.Service.Terminate.Succeeds.{Cooperates}
use cluster_api_provider_ucl.Tests.Samples.{host_in}
use cluster_api_provider_ucl.Tests.World.{body, environment_over}

pub record World : Type 0 where
  pub time : ℕ
  pub hosts : List UhostInstanceSet

abbrev hosts_after : Call → List UhostInstanceSet → List UhostInstanceSet
hosts_after (poweroff_uhost_instance r) hs = host_in "Stopped" ∷ []
hosts_after (terminate_uhost_instance r) hs = []
hosts_after c hs = hs

abbrev pub fading : Environment
fading =
    environment_over World
      (λ c w. (
        record { body = body w.hosts [] c; ret_code = pos 0; error = none },
        record { time = suc w.time; hosts = hosts_after c w.hosts },
      ))
      (λ w. w.time) (λ w. record w { time = suc w.time }) (λ d w. record w { time = w.time + d })

abbrev pub running_at : ℕ → World
running_at t = record { time = t; hosts = host_in "Running" ∷ [] }

pub fading-IsClock : IsClock fading
fading-IsClock = record { invoke_later = λ c w. omega arith; sleep_later = λ d w. omega arith }

abbrev pub IsOff : World → Type 0
IsOff w = w.hosts ≡ host_in "Stopped" ∷ []

abbrev pub IsGone : ℕ → World → Type 0
IsGone t w = w.hosts ≡ []

pub fading-Cooperates :
    (c : UcloudCluster) (start : ℕ)
    → Cooperates fading c "uhost-1" "cn-bj2-02" IsOff IsGone start 0 0 1 0
unfolding state_is all_gone
fading-Cooperates c start = record {
  stops = record {
    asked = λ w v. v;
    slept = λ w v. v;
    answers = λ w v. refl;
    quick = λ w v. omega arith;
    whole = λ w why v. rw v (λ p. cc);
    passes = λ w v le. rw v (host_in "Stopped", refl);
  };
  punctual = record { rests = λ w v. omega arith };
  terminates = λ w v. refl;
  going = λ w v. refl;
  goes = λ t. record {
    asked = λ w v. v;
    slept = λ w v. v;
    answers = λ w v. refl;
    quick = λ w v. omega arith;
    whole = λ w why v. rw v (λ p. cc);
    passes = λ w v le. rw v (tt, refl);
  };
}
