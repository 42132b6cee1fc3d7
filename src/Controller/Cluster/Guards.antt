-- ===== src/Controller/Cluster/Guards.antt =====
-- The finalizer of a cluster during its deletion.
use cluster_api_provider_ucl.Prelude.{
  ◌≡◌, ◌≢◌, refl, ap, sym, ◌∙◌, ◌⊎◌, inl, inr, arith, String, Bool, true, false, Bool-cases, List,
  contains, ◌==◌, eq_iff,
}
use cluster_api_provider_ucl.Prelude.Text.{has_suffix}
use cluster_api_provider_ucl.Go.{Result, ok, err, panic, continue, pure, ◌>>=◌}
use cluster_api_provider_ucl.Api.Cluster.{UcloudCluster, cluster_finalizer}
use cluster_api_provider_ucl.Cloud.{Environment}
use cluster_api_provider_ucl.Scope.{ClusterScope, State, update_cluster}
use cluster_api_provider_ucl.Service.Emits.{Emits}
use cluster_api_provider_ucl.Controller.Finalizers.{
  CtrlResult, done, retry_after, machine_suffix, machines_gone,
}
use cluster_api_provider_ucl.Controller.Finalizers.Emits.{Keeps-machines_gone}
use cluster_api_provider_ucl.Controller.Cluster.{
  delete_resources, drop_mark, finish_delete, reconcile_delete,
}
use cluster_api_provider_ucl.Controller.Cluster.Emits.{any_teardown, Keeps-delete_resources}
use cluster_api_provider_ucl.Controller.Cluster.Ready.{Anything, All-any}

-- The object has the cluster's finalizer, so that the API server keeps it.
abbrev pub has_mark : UcloudCluster → Bool
has_mark c = contains c.meta.finalizers cluster_finalizer

-- `RemoveFinalizer` removes the finalizer that it is given, and no other.
pub record RemovesOne (E : Environment) : Type 0 where
  pub removed :
      (mark : String) (finalizers slice : List String)
      → contains (E.remove_finalizer mark finalizers slice).0 mark ≡ false
  pub spared :
      (mark other : String) (finalizers slice : List String)
      → (mark == other) ≡ false
      → contains finalizers other ≡ true
      → contains (E.remove_finalizer mark finalizers slice).0 other ≡ true

-- The finalizer is gone exactly if the deletion is done.
abbrev pub Guarded : Result CtrlResult → UcloudCluster → Type 0
Guarded r c = ((r ≡ ok done) × (has_mark c ≡ false)) ⊎ ((r ≢ ok done) × (has_mark c ≡ true))

clash : {B : Type 0} → true ≡ false → B
clash p = cc

no_machine : has_suffix cluster_finalizer machine_suffix ≡ false
unfolding has_suffix
no_machine = refl

other_mark :
    (mark : String) → has_suffix mark machine_suffix ≡ true → (mark == cluster_finalizer) ≡ false
other_mark mark m = elim (Bool-cases (mark == cluster_finalizer)) [
  | inl e ↦ clash (sym m ∙ ap (λ f. has_suffix f machine_suffix) ((eq_iff _ _).0 e) ∙ no_machine)
  | inr n ↦ n
]

same_result : {a b : CtrlResult} → ok a ≡ ok b → a ≡ b
same_result p = cc

not_done : ok (retry_after 15) ≢ ok done
not_done p = omega (arith, ap CtrlResult.requeue_after (same_result p))

module _ (E : Environment) (sc : ClusterScope) (removes : RemovesOne E) where
  abbrev Marked : State E.World → Type 0
  Marked = Emits (λ c. has_mark c ≡ true) Anything

  -- By the outcome of the eight steps.
  after_resources :
      (r : Result (Unit {0})) (t : State E.World)
      → has_mark t.ucloud_cluster ≡ true
      → Guarded
          (continue r (λ _. drop_mark E cluster_finalizer >>= λ _. pure done) t).0
          (continue r (λ _. drop_mark E cluster_finalizer >>= λ _. pure done) t).1.ucloud_cluster
  unfolding drop_mark update_cluster ◌>>=◌
  after_resources (ok a) t h = inl (refl, removes.removed cluster_finalizer _ _)
  after_resources (err e) t h = inr (λ p. cc, h)
  after_resources (panic why) t h = inr (λ p. cc, h)

  -- By what the loop over the machines' finalizers has found.
  after_loop :
      (r : Result Bool) (t : State E.World)
      → Marked t
      → Guarded
          (continue r (finish_delete E sc) t).0
          (continue r (finish_delete E sc) t).1.ucloud_cluster
  unfolding finish_delete ◌>>=◌
  after_loop (ok true) t h =
      after_resources (delete_resources E sc t).0 (delete_resources E sc t).1
        ((Keeps-delete_resources E sc (any_teardown (λ e n. tt) (λ c i. i))).at t h).object
  after_loop (ok false) t h = inr (not_done, h.object)
  after_loop (err e) t h = inr (λ p. cc, h.object)
  after_loop (panic why) t h = inr (λ p. cc, h.object)

  -- If `RemoveFinalizer` removes the finalizer that it is given and no other, then on every way out of
  -- `reconcileDelete`, for a cluster whose object has the cluster's finalizer: the deletion is done and
  -- the finalizer is gone, or it is not done, by an error, a panic or a requeue, and the object has the
  -- finalizer still, so that it is not lost while UCloud has resources of it.
  pub reconcile_delete-Guarded :
      (s : State E.World)
      → has_mark s.ucloud_cluster ≡ true
      → Guarded (reconcile_delete E sc s).0 (reconcile_delete E sc s).1.ucloud_cluster
  unfolding reconcile_delete ◌>>=◌
  reconcile_delete-Guarded s h = after_loop (machines_gone E sc s).0 (machines_gone E sc s).1 (
      (Keeps-machines_gone E sc (λ _ _. tt)
          (λ f slice c m i. removes.spared f cluster_finalizer _ slice (other_mark f m) i)).at
        s (record { object = h; sent = All-any s.events }))
