-- ===== src/Controller/Cluster/Waits.antt =====
-- The deletion of a cluster waits for its machines.
use cluster_api_provider_ucl.Prelude.{
  ◌≡◌, ◌≢◌, refl, ap, arith, String, Bool, true, false, All, List, ◌∷◌, ◌++◌,
}
use cluster_api_provider_ucl.Prelude.Text.{has_suffix}
use cluster_api_provider_ucl.Go.{Result, ok, err, panic, continue, ◌>>=◌}
use cluster_api_provider_ucl.Cloud.{Environment, get_ucloud_machine}
use cluster_api_provider_ucl.Scope.{ClusterScope, State, Event, called}
use cluster_api_provider_ucl.Controller.Finalizers.{
  CtrlResult, done, retry_after, machine_suffix, machines_gone,
}
use cluster_api_provider_ucl.Controller.Finalizers.Emits.{Keeps-machines_gone}
use cluster_api_provider_ucl.Controller.Finalizers.Waits.{Remains, machines_gone-Remains}
use cluster_api_provider_ucl.Controller.Cluster.{finish_delete, reconcile_delete}

-- A read of a machine's object.
abbrev pub IsLookup : Event → Type 0
IsLookup (called (get_ucloud_machine namespace name)) = Unit {0}
IsLookup _ = ⊥

module _ (E : Environment) (sc : ClusterScope) where
  same_result : {a b : CtrlResult} → ok a ≡ ok b → a ≡ b
  same_result p = cc

  not_done : retry_after 15 ≢ done
  not_done p = omega (arith, ap CtrlResult.requeue_after p)

  after_wait :
      (r : Result Bool) (s : State E.World)
      → r ≢ ok true
      → ((continue r (finish_delete E sc) s).0 ≢ ok done)
        × ((continue r (finish_delete E sc) s).1 ≡ s)
  unfolding finish_delete ◌>>=◌
  after_wait (ok true) s n = absurd (n refl)
  after_wait (ok false) s n = (λ p. not_done (same_result p), refl)
  after_wait (err e) s n = ((λ p. cc), refl)
  after_wait (panic why) s n = ((λ p. cc), refl)

  -- Take a cluster whose object has a finalizer that ends with `.ucloudmachine`, and look at the first
  -- such finalizer. If the API server never says that the machine that it names is missing, then
  -- `reconcileDelete` does not report the deletion as done, and it sends nothing but reads of machine
  -- objects: nothing of the cluster is taken down.
  pub reconcile_delete-Remains :
      (before : List String) (mark : String) (after : List String) (s : State E.World)
      → s.ucloud_cluster.meta.finalizers ≡ before ++ mark ∷ after
      → All (λ f. has_suffix f machine_suffix ≡ false) before
      → Remains E sc mark
      → All IsLookup s.events
      → ((reconcile_delete E sc s).0 ≢ ok done) × All IsLookup (reconcile_delete E sc s).1.events
  unfolding reconcile_delete ◌>>=◌
  reconcile_delete-Remains before mark after s e others r sent =
      let ended =
        after_wait (machines_gone E sc s).0 (machines_gone E sc s).1
          (machines_gone-Remains E sc before mark after s e others r) in
      (
        ended.0,
        rw ended.1
            ((Keeps-machines_gone E sc {I = λ c. Unit} {Q = IsLookup} (λ namespace name. tt)
                (λ f slice c m x. x)).at
              s (record { object = tt; sent = sent })).sent,
      )
