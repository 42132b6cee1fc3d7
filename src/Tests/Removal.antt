-- ===== src/Tests/Removal.antt =====
-- The removal of a finalizer in the concrete environment.
use cluster_api_provider_ucl.Prelude.{
  ◌≡◌, refl, sym, ◌∙◌, ◌||◌, inl, inr, Bool, Bool-cases, true, false, String, some, List, [], ◌∷◌,
  contains, ◌==◌, eq_iff,
}
use cluster_api_provider_ucl.Api.Cluster.{UcloudCluster, cluster_finalizer}
use cluster_api_provider_ucl.Controller.Cluster.{reconcile_delete}
use cluster_api_provider_ucl.Controller.Cluster.Guards.{
  RemovesOne, Guarded, reconcile_delete-Guarded,
}
use cluster_api_provider_ucl.Tests.Samples.{whole_cluster, cluster_scope, at_zero}
use cluster_api_provider_ucl.Tests.World.{environment, without}

or_true : (a b : Bool) → b ≡ true → (a || b) ≡ true
or_true true b p = refl
or_true false b p = p

false_or : (a b : Bool) → a ≡ false → b ≡ false → (a || b) ≡ false
false_or true b p q = p
false_or false b p q = q

contains-without : (f : String) (fs : List String) → contains (without f fs) f ≡ false
contains-without f [] = refl
contains-without f (g ∷ gs) = elim (Bool-cases (g == f)) [
  | inl e ↦ rw e (contains-without f gs)
  | inr e ↦ rw e (false_or _ _ e (contains-without f gs))
]

clash : {B : Type 0} → true ≡ false → B
clash p = cc

same_mark : (f g h : String) → (h == f) ≡ true → (h == g) ≡ true → (f == g) ≡ true
same_mark f g h p q = (eq_iff f g).1 (sym ((eq_iff h f).0 p) ∙ (eq_iff h g).0 q)

contains-without_other :
    (f g : String) (fs : List String)
    → (f == g) ≡ false
    → contains fs g ≡ true
    → contains (without f fs) g ≡ true
contains-without_other f g [] n c = c
contains-without_other f g (h ∷ hs) n c = elim (Bool-cases (h == f)) [
  | inl e ↦ elim (Bool-cases (h == g)) [
    | inl q ↦ clash (sym (same_mark f g h e q) ∙ n)
    | inr q ↦ rw e (contains-without_other f g hs n (rw q at c))
  ]
  | inr e ↦ elim (Bool-cases (h == g)) [
    | inl q ↦ rw (e, q) refl
    | inr q ↦ rw (e, q) (contains-without_other f g hs n (rw q at c))
  ]
]

without-RemovesOne : RemovesOne (environment [] [])
without-RemovesOne = record {
  removed = λ mark fs slice. contains-without mark fs;
  spared = λ mark g fs slice n c. contains-without_other mark g fs n c;
}

-- A cluster on which a machine has left its finalizer.
abbrev leaving : UcloudCluster
leaving = record whole_cluster {
  meta = record (whole_cluster.meta) {
    finalizers = cluster_finalizer ∷ "machine-0.ucloudmachine" ∷ [];
    deletion_timestamp = some "2020-05-01T00:00:00Z";
  };
}

reconcile_delete-Guarded_example :
    Guarded
      (reconcile_delete (environment [] []) cluster_scope (at_zero leaving 0)).0
      (reconcile_delete (environment [] []) cluster_scope (at_zero leaving 0)).1.ucloud_cluster
reconcile_delete-Guarded_example =
    reconcile_delete-Guarded (environment [] []) cluster_scope without-RemovesOne
      (at_zero leaving 0) refl
