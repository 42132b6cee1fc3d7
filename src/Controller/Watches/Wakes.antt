-- ===== src/Controller/Watches/Wakes.antt =====
-- Which events on clusters wake the two controllers.
use mathlib.Core.Path.{subst}
use cluster_api_provider_ucl.Prelude.{
  String, ◌≡◌, refl, ap, ◌∙◌, arith, true, false, Bool-cases, inl, inr, Option, none, some, List,
  [], ◌∷◌, All, ◌⊎◌,
}
use cluster_api_provider_ucl.Go.{ok, ◌>>=◌}
use cluster_api_provider_ucl.Go.Leads.{ok-injective}
use cluster_api_provider_ucl.Api.Cluster.{Cluster as CapiCluster}
use cluster_api_provider_ucl.Cloud.{Environment}
use cluster_api_provider_ucl.Scope.{State, Op}
use cluster_api_provider_ucl.Controller.Pause.{
  WatchEvent, create, update, delete, unpaused_predicates,
}
use cluster_api_provider_ucl.Controller.Watches.{
  Object, of_cluster, Watch, enqueue_mapped, cluster_predicates, ucloud_cluster_watch,
  ucloud_machine_watch,
}
use cluster_api_provider_ucl.Controller.Requests.{
  cluster, NamespacedName, requeue_ucloud_cluster_for_unpaused_cluster,
}

-- An event on a cluster, as a watched event.
abbrev pub cluster_event : WatchEvent CapiCluster → WatchEvent Object
cluster_event (create c) = create (of_cluster c)
cluster_event (update old new) = update (of_cluster old) (of_cluster new)
cluster_event (delete c) = delete (of_cluster c)

-- The cluster is there without a pause, for the first time or again.
abbrev pub IsUnpausing : WatchEvent CapiCluster → Type 0
IsUnpausing (create c) = c.paused ≡ false
IsUnpausing (update old new) = (old.paused ≡ true) × (new.paused ≡ false)
IsUnpausing (delete c) = ⊥

-- A cluster of the event.
abbrev pub IsIn : CapiCluster → WatchEvent CapiCluster → Type 0
IsIn c (create d) = c ≡ d
IsIn c (update old new) = (c ≡ old) ⊎ (c ≡ new)
IsIn c (delete d) = c ≡ d

-- The request names the infrastructure of a cluster of the event that is not being deleted.
pub record Names (e : WatchEvent CapiCluster) (r : NamespacedName) : Type 0 where
  pub whose : CapiCluster
  pub among : IsIn whose e
  pub alive : whose.meta.deletion_timestamp ≡ none
  pub name_is : whose.infrastructure_ref ≡ some r.name
  pub namespace_is : r.namespace ≡ whose.meta.namespace

-- What controller-runtime makes of the events on clusters: nothing of what a predicate refuses, and
-- with a mapping function nothing but what that returns for a cluster of the event.
pub record Delivers (E : Environment)
    (deliver : Watch E → WatchEvent CapiCluster → State E.World → List NamespacedName)
    : Type 1 where
  pub filtered :
      (w : Watch E) (e : WatchEvent CapiCluster) (s : State E.World)
      → w.predicates (cluster_event e) ≡ ok false
      → deliver w e s ≡ []
  pub mapped :
      (w : Watch E) (f : Object → Op E (List NamespacedName)) (e : WatchEvent CapiCluster)
      (s : State E.World) (P : NamespacedName → Type 0)
      → w.source.handler ≡ enqueue_mapped f
      → ((c : CapiCluster) (t : State E.World) (rs : List NamespacedName)
          → IsIn c e
          → (f (of_cluster c) t).0 ≡ ok rs
          → All P rs)
      → All P (deliver w e s)

-- On events of the watched kind the type assertions hold, and the test is on the two pauses.
pub cluster_predicates-typed :
    (e : WatchEvent CapiCluster) → cluster_predicates (cluster_event e) ≡ ok (unpaused_predicates e)
unfolding cluster_predicates unpaused_predicates
cluster_predicates-typed (create c) = refl
cluster_predicates-typed (update old new) = refl
cluster_predicates-typed (delete c) = refl

unpausing : (e : WatchEvent CapiCluster) → unpaused_predicates e ≡ true → IsUnpausing e
unfolding unpaused_predicates
unpausing (create c) p = ground arith
unpausing (update old new) p = ground arith
unpausing (delete c) p = cc

module _ (e : WatchEvent CapiCluster) where
  by_ref :
      (c : CapiCluster) (d ref : Option String)
      → IsIn c e
      → c.meta.deletion_timestamp ≡ d
      → c.infrastructure_ref ≡ ref
      → All (Names e) (elim d as (λ _. List NamespacedName) [
        | some _ ↦ []
        | none ↦ elim ref [
          | none ↦ []
          | some name ↦ record { namespace = c.meta.namespace; name = name } ∷ []
        ]
      ])
  by_ref c (some t) ref among p q = tt
  by_ref c none none among p q = tt
  by_ref c none (some name) among p q =
      (record { whose = c; among = among; alive = p; name_is = q; namespace_is = refl }, tt)

  requeued :
      (c : CapiCluster)
      → IsIn c e
      → All (Names e) (requeue_ucloud_cluster_for_unpaused_cluster (cluster c))
  unfolding requeue_ucloud_cluster_for_unpaused_cluster
  requeued c among = by_ref c c.meta.deletion_timestamp c.infrastructure_ref among refl refl

module _ (E : Environment)
    {deliver : Watch E → WatchEvent CapiCluster → State E.World → List NamespacedName}
    (delivers : Delivers E deliver) (e : WatchEvent CapiCluster) (s : State E.World) where
  refused :
      (w : Watch E)
      → w.predicates (cluster_event e) ≡ ok (unpaused_predicates e)
      → unpaused_predicates e ≡ false
      → deliver w e s ≡ []
  refused w p q = delivers.filtered w e s (p ∙ ap ok q)

  silent :
      IsUnpausing e
      ⊎ ((deliver (ucloud_cluster_watch E) e s ≡ []) × (deliver (ucloud_machine_watch E) e s ≡ []))
  silent = elim (Bool-cases (unpaused_predicates e)) [
    | inl q ↦ inl (unpausing e q)
    | inr q ↦ inr (
      refused (ucloud_cluster_watch E) (cluster_predicates-typed e) q,
      refused (ucloud_machine_watch E) (cluster_predicates-typed e) q,
    )
  ]

  woken : All (Names e) (deliver (ucloud_cluster_watch E) e s)
  unfolding ◌>>=◌
  woken =
      delivers.mapped (ucloud_cluster_watch E) _ e s (Names e) refl
        (λ c t rs among p. subst (All (Names e)) (ok-injective p) (requeued e c among))

  -- Take a controller runtime that delivers nothing for an event that the watch's predicates refuse,
  -- and that with a mapping function delivers nothing but what that returns for a cluster of the
  -- event. Then the event is the creation of a cluster without a pause or an update that ends a
  -- pause, or neither controller's watch on clusters delivers a request; and each request that the
  -- watch of the UCloudCluster controller delivers has the namespace of a cluster of the event that is
  -- not being deleted, and the name in its infrastructure reference.
  pub watches-Wakes :
      (IsUnpausing e
        ⊎ ((deliver (ucloud_cluster_watch E) e s ≡ [])
            × (deliver (ucloud_machine_watch E) e s ≡ [])))
      × All (Names e) (deliver (ucloud_cluster_watch E) e s)
  watches-Wakes = (silent, woken)
