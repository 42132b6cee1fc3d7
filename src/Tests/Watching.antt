-- ===== src/Tests/Watching.antt =====
-- A controller runtime that maps each cluster of an event that passes.
use mathlib.Core.Path.{subst}
use cluster_api_provider_ucl.Prelude.{
  ◌≡◌, refl, sym, Bool, true, false, List, [], ◌++◌, All, All-append, inl, inr, ◌⊎◌,
}
use cluster_api_provider_ucl.Go.{Result, ok, err, panic}
use cluster_api_provider_ucl.Api.Cluster.{Cluster as CapiCluster}
use cluster_api_provider_ucl.Cloud.{Environment}
use cluster_api_provider_ucl.Scope.{State, Op}
use cluster_api_provider_ucl.Controller.Pause.{WatchEvent, create, update, delete}
use cluster_api_provider_ucl.Controller.Requests.{NamespacedName}
use cluster_api_provider_ucl.Controller.Watches.{
  Object, of_cluster, Watch, Handler, enqueue_object, enqueue_mapped, ucloud_cluster_watch,
  ucloud_machine_watch,
}
use cluster_api_provider_ucl.Controller.Watches.Wakes.{
  Delivers, IsIn, IsUnpausing, Names, cluster_event, watches-Wakes,
}
use cluster_api_provider_ucl.Tests.Samples.{capi_cluster, new_cluster, at_zero}
use cluster_api_provider_ucl.Tests.Supplies.{supplying}

abbrev returned : Result (List NamespacedName) → List NamespacedName
returned (ok rs) = rs
returned _ = []

module _ (E : Environment) where
  abbrev map_event :
      (Object → Op E (List NamespacedName))
      → WatchEvent CapiCluster
      → State E.World
      → List NamespacedName
  map_event f (create c) s = returned (f (of_cluster c) s).0
  map_event f (update old new) s =
      returned (f (of_cluster old) s).0 ++ returned (f (of_cluster new) s).0
  map_event f (delete c) s = returned (f (of_cluster c) s).0

  abbrev handle_event : Handler E → WatchEvent CapiCluster → State E.World → List NamespacedName
  handle_event enqueue_object e s = []
  handle_event (enqueue_mapped f) e s = map_event f e s

  abbrev if_passed : Result Bool → List NamespacedName → List NamespacedName
  if_passed (ok true) rs = rs
  if_passed _ rs = []

  abbrev deliver : Watch E → WatchEvent CapiCluster → State E.World → List NamespacedName
  deliver w e s = if_passed (w.predicates (cluster_event e)) (handle_event w.source.handler e s)

  All-if_passed :
      (P : NamespacedName → Type 0) (r : Result Bool) (rs : List NamespacedName)
      → All P rs
      → All P (if_passed r rs)
  All-if_passed P (ok true) rs h = h
  All-if_passed P (ok false) rs h = tt
  All-if_passed P (err e) rs h = tt
  All-if_passed P (panic why) rs h = tt

  All-returned :
      (P : NamespacedName → Type 0) (r : Result (List NamespacedName))
      → ((rs : List NamespacedName) → r ≡ ok rs → All P rs)
      → All P (returned r)
  All-returned P (ok rs) k = k rs refl
  All-returned P (err e) k = tt
  All-returned P (panic why) k = tt

  All-map_event :
      (P : NamespacedName → Type 0) (f : Object → Op E (List NamespacedName))
      (e : WatchEvent CapiCluster) (s : State E.World)
      → ((c : CapiCluster) (t : State E.World) (rs : List NamespacedName)
          → IsIn c e
          → (f (of_cluster c) t).0 ≡ ok rs
          → All P rs)
      → All P (map_event f e s)
  All-map_event P f (create c) s k = All-returned P _ (λ rs p. k c s rs refl p)
  All-map_event P f (update old new) s k =
      All-append P _ _ (All-returned P _ (λ rs p. k old s rs (inl refl) p))
        (All-returned P _ (λ rs p. k new s rs (inr refl) p))
  All-map_event P f (delete c) s k = All-returned P _ (λ rs p. k c s rs refl p)

  deliver-Delivers : Delivers E deliver
  deliver-Delivers = record {
    filtered = λ w e s p. rw p refl;
    mapped = λ w f e s P p k.
        All-if_passed P _ _
          (subst (λ h. All P (handle_event h e s)) (sym p) (All-map_event P f e s k));
  }

abbrev ended_pause : WatchEvent CapiCluster
ended_pause = update (record capi_cluster { paused = true }) capi_cluster

watches-Wakes_example :
    (IsUnpausing ended_pause
      ⊎ ((deliver supplying (ucloud_cluster_watch supplying) ended_pause (at_zero new_cluster 0)
            ≡ [])
          × (deliver supplying (ucloud_machine_watch supplying) ended_pause (at_zero new_cluster 0)
              ≡ [])))
    × All
        (Names ended_pause)
        (deliver supplying (ucloud_cluster_watch supplying) ended_pause (at_zero new_cluster 0))
watches-Wakes_example =
    watches-Wakes supplying (deliver-Delivers supplying) ended_pause (at_zero new_cluster 0)
