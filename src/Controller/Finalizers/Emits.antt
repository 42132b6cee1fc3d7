-- ===== src/Controller/Finalizers/Emits.antt =====
-- What the loop over the finalizers sends.
use cluster_api_provider_ucl.Prelude.{
  ◌≡◌, ℕ, zero, suc, ◌+◌, String, Bool, true, false, Option, none, some, List, get_elem?, length,
}
use cluster_api_provider_ucl.Prelude.Text.{has_suffix}
use cluster_api_provider_ucl.Go.{pure, ◌>>=◌}
use cluster_api_provider_ucl.Go.Keeps.{Keeps, Keeps-pure, Keeps-if, Keeps-bind}
use cluster_api_provider_ucl.Api.Cluster.{UcloudCluster}
use cluster_api_provider_ucl.Cloud.{Environment, get_ucloud_machine}
use cluster_api_provider_ucl.Scope.{ClusterScope, Event, called}
use cluster_api_provider_ucl.Service.Emits.{Emits, Keeps-with_cluster, Keeps-call}
use cluster_api_provider_ucl.Controller.Finalizers.{
  machine_suffix, missing, set_finalizers, remove_mark, check_mark, check_marks, machines_gone,
}

module _ (E : Environment) (sc : ClusterScope) {I : UcloudCluster → Type 0} {Q : Event → Type 0}
    (allows : (namespace name : String) → Q (called (get_ucloud_machine namespace name)))
    (keeps : (f : String) (slice : List String) (c : UcloudCluster)
      → has_suffix f machine_suffix ≡ true
      → I c
      → I (set_finalizers (E.remove_finalizer f c.meta.finalizers slice).0 c)) where
  Keeps-remove_mark :
      (f : String) (slice : List String)
      → has_suffix f machine_suffix ≡ true
      → Keeps (Emits I Q) (remove_mark E f slice)
  unfolding remove_mark
  Keeps-remove_mark f slice m = record {
    at = λ s h. record { object = keeps f slice s.ucloud_cluster m h.object; sent = h.sent };
  }

  Keeps-check_mark :
      (f : String) (slice : List String) → Keeps (Emits I Q) (check_mark E sc f slice)
  unfolding check_mark
  Keeps-check_mark f slice =
      Keeps-if (has_suffix f machine_suffix) _ _
        (λ m. Keeps-bind _ _ (Keeps-call E _ (allows _ _)) (λ reply.
          Keeps-if (missing E reply) _ _
            (λ _. Keeps-bind _ _ (Keeps-remove_mark f slice m) (λ _. Keeps-pure _))
            (λ _. Keeps-pure none)))
        (λ _. Keeps-pure (some slice))

  after_mark :
      (rounds i : ℕ) (next : Option (List String))
      → ((slice : List String) → Keeps (Emits I Q) (check_marks E sc rounds (i + 1) slice))
      → Keeps {A = Bool}
          (Emits {W = E.World} I Q)
          (elim next [ none ↦ pure false | some slice ↦ check_marks E sc rounds (i + 1) slice ])
  after_mark rounds i none k = Keeps-pure false
  after_mark rounds i (some slice) k = k slice

  at_index :
      (rounds i : ℕ) (slice : List String) (o : Option String)
      → ((slice' : List String) → Keeps (Emits I Q) (check_marks E sc rounds (i + 1) slice'))
      → Keeps {A = Bool} (Emits {W = E.World} I Q) (elim o [
        | none ↦ pure true
        | some f ↦ check_mark E sc f slice >>= λ next. elim next [
          | none ↦ pure false
          | some slice' ↦ check_marks E sc rounds (i + 1) slice'
        ]
      ])
  at_index rounds i slice none k = Keeps-pure true
  at_index rounds i slice (some f) k =
      Keeps-bind _ _ (Keeps-check_mark f slice) (λ next. after_mark rounds i next k)

  Keeps-check_marks :
      (rounds i : ℕ) (slice : List String) → Keeps (Emits I Q) (check_marks E sc rounds i slice)
  unfolding check_marks
  Keeps-check_marks zero i slice = Keeps-pure true
  Keeps-check_marks (suc rounds) i slice =
      at_index rounds i slice (get_elem? slice i)
        (λ slice'. Keeps-check_marks rounds (i + 1) slice')

  pub Keeps-machines_gone : Keeps (Emits I Q) (machines_gone E sc)
  unfolding machines_gone
  Keeps-machines_gone =
      Keeps-with_cluster _ (λ c i. Keeps-check_marks (length c.meta.finalizers) 0 c.meta.finalizers)
