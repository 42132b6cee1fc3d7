-- ===== src/Tests/Shifting.antt =====
-- A cluster of which one machine is gone and another is there, where `RemoveFinalizer` cuts in place.
use cluster_api_provider_ucl.Prelude.{
  suc, ◌+◌, ◌≡◌, ◌≢◌, refl, ap, ◌∙◌, String, true, false, arith, Option, none, some, pos, List, [],
  ◌∷◌, ◌++◌, All, ◌==◌, eq_refl, eq_false, if◌then◌else◌, ℕ,
}
use cluster_api_provider_ucl.Prelude.Text.{has_suffix, split}
use cluster_api_provider_ucl.Go.{Error, external, ok}
use cluster_api_provider_ucl.Cloud.{Environment, Call, get_ucloud_machine}
use cluster_api_provider_ucl.Scope.{State}
use cluster_api_provider_ucl.Controller.Finalizers.{machines_gone, marked_machine}
use cluster_api_provider_ucl.Controller.Finalizers.Skips.{
  shifted, ShiftsSlice, after_lookup, machines_gone-skips,
}
use cluster_api_provider_ucl.Tests.Samples.{cluster_of, network_of, cluster_scope, at_zero}
use cluster_api_provider_ucl.Tests.World.{body, environment_over}

-- The machine `m0` is gone.
abbrev trouble : Call → Option Error
trouble (get_ucloud_machine namespace name) =
    if name == "m0" then some (external "not found") else none
trouble c = none

abbrev cut : String → List String → List String
cut f [] = []
cut f (g ∷ gs) = let rest = cut f gs in if g == f then gs else g ∷ rest

abbrev shift : String → List String → List String
shift f [] = []
shift f (g ∷ gs) = let rest = shift f gs in if g == f then shifted g gs else g ∷ rest

abbrev shifting : Environment
shifting =
    record (environment_over ℕ
      (λ c w. (record { body = body [] [] c; ret_code = pos 0; error = trouble c }, suc w)) (λ w. w)
      (λ w. suc w) (λ d w. w + d)) {
        is_not_found = λ e. true;
        remove_finalizer = λ f fs slice. (cut f fs, shift f slice);
      }

cut-append :
    (f : String) (before after : List String)
    → All (λ g. g ≢ f) before
    → cut f (before ++ f ∷ after) ≡ before ++ after
cut-append f [] after h = rw (eq_refl f) refl
cut-append f (g ∷ gs) after h = rw (eq_false g f h.0) (ap (λ l. g ∷ l) (cut-append f gs after h.1))

shift-append :
    (f : String) (before after : List String)
    → All (λ g. g ≢ f) before
    → shift f (before ++ f ∷ after) ≡ before ++ shifted f after
shift-append f [] after h = rw (eq_refl f) refl
shift-append f (g ∷ gs) after h =
    rw (eq_false g f h.0) (ap (λ l. g ∷ l) (shift-append f gs after h.1))

shifting-ShiftsSlice : ShiftsSlice shifting
shifting-ShiftsSlice = record {
  shifts = λ f before after hb ha.
      ap (λ l. (l, shift f (before ++ f ∷ after))) (cut-append f before after hb)
      ∙ ap (λ l. (before ++ after, l)) (shift-append f before after hb);
}

abbrev own : String
own = "ucloudcluster.infrastructure.cluster.x-k8s.io"

abbrev half_gone : State ℕ
half_gone =
    at_zero
      (cluster_of (own ∷ "m0.ucloudmachine" ∷ "m1.ucloudmachine" ∷ "foregroundDeletion" ∷ []) "bg-1"
        (network_of "vpc-user" "subnet-user" "nat-1" "ulb-1"))
      0

true_false : {f : String} → (f == "m0.ucloudmachine") ≡ false → f ≢ "m0.ucloudmachine"
true_false {f} e p = ground (arith, eq_refl f)

machines_gone-skips_example : machines_gone shifting cluster_scope half_gone ≡ (
  ok true,
  after_lookup shifting cluster_scope "m0.ucloudmachine"
      (own ∷ "m1.ucloudmachine" ∷ "foregroundDeletion" ∷ [])
      half_gone,
)
unfolding has_suffix marked_machine split
machines_gone-skips_example =
    machines_gone-skips shifting cluster_scope shifting-ShiftsSlice (own ∷ []) "m0.ucloudmachine"
      "m1.ucloudmachine" "foregroundDeletion" [] half_gone refl (refl, tt) refl refl
      (true_false refl) (refl, tt)
