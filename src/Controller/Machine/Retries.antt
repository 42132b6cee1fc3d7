-- ===== src/Controller/Machine/Retries.antt =====
-- A deletion of a machine that fails leaves the machine's object to be deleted again.
use cluster_api_provider_ucl.Prelude.{◌≡◌, refl, Bool, true, false}
use cluster_api_provider_ucl.Go.{Exec, Result, ok, err, panic, continue, pure, ◌>>=◌}
use cluster_api_provider_ucl.Go.Keeps.{Keeps, Keeps-pure, Keeps-bind, Keeps-wrapping, Keeps-option}
use cluster_api_provider_ucl.Api.Machine.{UcloudMachine}
use cluster_api_provider_ucl.Cloud.{Environment, UhostInstanceSet}
use cluster_api_provider_ucl.Scope.{ClusterScope, MachineState}
use cluster_api_provider_ucl.Scope.Machine.{MachineScope}
use cluster_api_provider_ucl.Service.Ulb.Formatted.{Keeps-formatted}
use cluster_api_provider_ucl.Service.Capu.{delete_capu_host_for}
use cluster_api_provider_ucl.Service.Instance.{instance_if_exists}
use cluster_api_provider_ucl.Service.Terminate.{terminate_instance_and_wait}
use cluster_api_provider_ucl.Controller.Finalizers.{done}
use cluster_api_provider_ucl.Controller.Machine.{update_machine, take_down, reconcile_delete}
use cluster_api_provider_ucl.Controller.Machine.Records.{
  Has, Keeps-on_cluster, Keeps-if_control_plane,
}

-- It gave a value.
abbrev pub returned : {A : Type 0} → Result A → Bool
returned (ok a) = true
returned (err e) = false
returned (panic why) = false

-- Where `m` gives no value, it keeps `P`.
record KeepsFailing {S A : Type 0} (P : S → Type 0) (m : Exec S A) : Type 0 where
  pub at : (s : S) → P s → returned (m s).0 ≡ false → P (m s).1

module _ {S A B : Type 0} {P : S → Type 0} where
  after_first :
      (r : Result A) (f : A → Exec S B) (s : S)
      → P s
      → ((a : A) → KeepsFailing P (f a))
      → returned (continue r f s).0 ≡ false
      → P (continue r f s).1
  after_first (ok a) f s h k e = (k a).at s h e
  after_first (err x) f s h k e = h
  after_first (panic why) f s h k e = h

  KeepsFailing-bind :
      (m : Exec S A) (f : A → Exec S B)
      → Keeps P m
      → ((a : A) → KeepsFailing P (f a))
      → KeepsFailing P (m >>= f)
  unfolding ◌>>=◌
  KeepsFailing-bind m f kept k = record {
    at = λ s h e. after_first (m s).0 f (m s).1 (kept.at s h) k e;
  }

-- The end of the deletion always gives a value.
KeepsFailing-end :
    {W : Type 0} {P : MachineState W → Type 0} (f : UcloudMachine → UcloudMachine)
    → KeepsFailing P (update_machine f >>= λ _. pure done)
unfolding update_machine ◌>>=◌
KeepsFailing-end f = record { at = λ s h e. cc }

module _ (E : Environment) {P : UcloudMachine → Type 0} where
  Keeps-instance_if_exists : Keeps (Has P) (instance_if_exists E)
  unfolding instance_if_exists
  Keeps-instance_if_exists = record { at = λ s. (Keeps-on_cluster E _).at s }

  Keeps-terminate : (ms : MachineScope) → Keeps (Has P) (terminate_instance_and_wait E ms)
  unfolding terminate_instance_and_wait
  Keeps-terminate ms = record { at = λ s. (Keeps-on_cluster E _).at s }

module _ (E : Environment) (sc : ClusterScope) {P : UcloudMachine → Type 0} where
  Keeps-delete_host : Keeps (Has P) (delete_capu_host_for E sc)
  unfolding delete_capu_host_for
  Keeps-delete_host = record { at = λ s. (Keeps-on_cluster E _).at s }

  Keeps-take_down : (ms : MachineScope) (i : UhostInstanceSet) → Keeps (Has P) (take_down E sc ms i)
  unfolding take_down
  Keeps-take_down ms i = Keeps-bind _ _ (Keeps-wrapping _ _ _ (Keeps-if_control_plane E ms _)) (λ _.
      Keeps-bind _ _ (Keeps-wrapping _ _ _ Keeps-delete_host)
        (λ _. Keeps-formatted _ _ (Keeps-terminate E ms)))

module _ (E : Environment) (sc : ClusterScope) (ms : MachineScope) where
  abbrev Stays : UcloudMachine → UcloudMachine → Type 0
  Stays m n = n ≡ m

  KeepsFailing-reconcile_delete :
      (m : UcloudMachine) → KeepsFailing (Has (Stays m)) (reconcile_delete E sc ms)
  unfolding reconcile_delete
  KeepsFailing-reconcile_delete m =
      KeepsFailing-bind _ _ (Keeps-wrapping _ _ _ (Keeps-instance_if_exists E)) (λ found.
        KeepsFailing-bind _ _ (Keeps-option found _ _ (Keeps-take_down E sc ms) (Keeps-pure tt))
          (λ _. KeepsFailing-end _))

  -- If the deletion of a machine ends with an error or a panic, at whatever step, then the machine's
  -- object is as it was, its finalizers included.
  pub reconcile_delete-returned :
      (s : MachineState E.World)
      → returned (reconcile_delete E sc ms s).0 ≡ false
      → (reconcile_delete E sc ms s).1.ucloud_machine ≡ s.ucloud_machine
  reconcile_delete-returned s e =
      ((KeepsFailing-reconcile_delete s.ucloud_machine).at s (record { held = refl }) e).held
