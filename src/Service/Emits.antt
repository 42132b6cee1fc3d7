-- ===== src/Service/Emits.antt =====
-- Rules for what the operations of cloud/services send: each call that is made has a property, and
-- the cluster's object keeps another.
use cluster_api_provider_ucl.Prelude.{ℕ, ℤ, List, [], ◌∷◌, All, All-append}
use cluster_api_provider_ucl.Go.{Error, Exec}
use cluster_api_provider_ucl.Go.Keeps.{Keeps, Keeps-pure, Keeps-crash}
use cluster_api_provider_ucl.Api.Cluster.{UcloudCluster}
use cluster_api_provider_ucl.Cloud.{Environment, Call, describe_uhost_instance}
use cluster_api_provider_ucl.Scope.{
  State, Event, called, call, request, with_cluster, update_cluster,
}
use cluster_api_provider_ucl.Service.Call.{request_but, first}
use cluster_api_provider_ucl.Service.Holds.{
  Keeps-request_of, Keeps-request_but_of, Keeps-clock, Keeps-wait_for_of,
}
use cluster_api_provider_ucl.Service.Timer.{Timer}
use cluster_api_provider_ucl.Service.Wait.{Loop, now_is, sleep_for, wait_for}

-- The object has `I`, and every event so far has `Q`.
pub record Emits {W : Type 0} (I : UcloudCluster → Type 0) (Q : Event → Type 0) (s : State W)
    : Type 0 where
  pub object : I s.ucloud_cluster
  pub sent : All Q s.events

module _ {W : Type 0} {I : UcloudCluster → Type 0} {Q : Event → Type 0} where
  pub Keeps-with_cluster :
      {A : Type 0} (f : UcloudCluster → Exec (State W) A)
      → ((c : UcloudCluster) → I c → Keeps (Emits I Q) (f c))
      → Keeps (Emits I Q) (with_cluster f)
  unfolding with_cluster
  Keeps-with_cluster f k = record { at = λ s h. (k s.ucloud_cluster h.object).at s h }

  pub Keeps-update_cluster :
      (f : UcloudCluster → UcloudCluster)
      → ((c : UcloudCluster) → I c → I (f c))
      → Keeps (Emits {W = W} I Q) (update_cluster f)
  unfolding update_cluster
  Keeps-update_cluster f k = record {
    at = λ s h. record { object = k s.ucloud_cluster h.object; sent = h.sent };
  }

  pub Keeps-first : {A : Type 0} (xs : List A) → Keeps (Emits {W = W} I Q) (first xs)
  unfolding first
  Keeps-first [] = Keeps-crash _
  Keeps-first (x ∷ xs) = Keeps-pure x

module _ (E : Environment) {I : UcloudCluster → Type 0} {Q : Event → Type 0} where
  pub Keeps-call : (c : Call) → Q (called c) → Keeps (Emits I Q) (call E c)
  unfolding call
  Keeps-call c q = record {
    at = λ s h. record {
      object = h.object;
      sent = All-append Q s.events (called c ∷ []) h.sent (q, tt);
    };
  }

  pub Keeps-request :
      (f : Error → Error) (c : Call) → Q (called c) → Keeps (Emits I Q) (request E f c)
  Keeps-request f c q = Keeps-request_of E f c (Keeps-call c q)

  pub Keeps-request_but :
      (code : ℤ) (f : Error → Error) (c : Call)
      → Q (called c)
      → Keeps (Emits I Q) (request_but E code f c)
  Keeps-request_but code f c q = Keeps-request_but_of E code f c (Keeps-call c q)

  pub Keeps-now_is : Keeps (Emits I Q) (now_is E)
  Keeps-now_is = Keeps-clock E

  pub Keeps-sleep_for : (d : ℕ) → Keeps (Emits I Q) (sleep_for E d)
  unfolding sleep_for
  Keeps-sleep_for d = record { at = λ s h. record { object = h.object; sent = h.sent } }

  pub Keeps-wait_for :
      {A : Type 0} (rounds : ℕ) (l : Loop A) (t : Timer)
      → Q (called (describe_uhost_instance l.asks))
      → Keeps (Emits I Q) (wait_for E rounds l t)
  Keeps-wait_for rounds l t q =
      Keeps-wait_for_of E rounds l t (Keeps-call _ q) (Keeps-sleep_for l.pause)
