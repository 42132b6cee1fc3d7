-- ===== src/Controller/Machine/Verdict.antt =====
-- What the reconciler of a machine concludes from the state of an instance.
use cluster_api_provider_ucl.Prelude.{
  ◌≡◌, sym, ◌∙◌, refl, true, false, ◌||◌, none, some, is_empty, ◌==◌,
}
use cluster_api_provider_ucl.Go.{pure, ◌>>=◌}
use cluster_api_provider_ucl.Go.Keeps.{Keeps, Keeps-bind, Keeps-pure}
use cluster_api_provider_ucl.Api.Machine.{UcloudMachine}
use cluster_api_provider_ucl.Cloud.{Environment, UhostInstanceSet}
use cluster_api_provider_ucl.Scope.{ClusterScope, MachineState}
use cluster_api_provider_ucl.Scope.Machine.{MachineScope}
use cluster_api_provider_ucl.Service.Backend.{del_real_server}
use cluster_api_provider_ucl.Controller.Machine.{
  update_machine, unexpected_state, mark_failed, record_instance, if_control_plane, register,
  handle_state, settle_instance,
}
use cluster_api_provider_ucl.Controller.Machine.Records.{
  Has, IsStable, Keeps-handle_state, Keeps-register, Keeps-if_control_plane,
}

true_false : {B : Type 0} → true ≡ false → B
true_false p = cc

module _ (E : Environment) (sc : ClusterScope) (ms : MachineScope) (i : UhostInstanceSet) where
  -- The machine was as ready before.
  abbrev WasReady : MachineState E.World → UcloudMachine → Type 0
  WasReady s m = m.status.ready ≡ true → s.ucloud_machine.status.ready ≡ true

  stable-WasReady :
      (s : MachineState E.World) → (i.state == E.state_running) ≡ false → IsStable E i (WasReady s)
  stable-WasReady s idle = record {
    ready_free = λ runs m h. true_false (sym runs ∙ idle);
    failure_free = λ message m h ready. true_false (sym ready);
    cluster_free = λ id m h. h;
  }

  -- Only a running instance makes a machine ready: if the instance is in any other state, then a machine
  -- that is marked as ready afterwards was so before.
  pub settle_instance-ready :
      (s : MachineState E.World)
      → (i.state == E.state_running) ≡ false
      → (settle_instance E sc ms i s).1.ucloud_machine.status.ready ≡ true
      → s.ucloud_machine.status.ready ≡ true
  unfolding settle_instance record_instance update_machine ◌>>=◌
  settle_instance-ready s idle =
      ((Keeps-bind (handle_state E ms i) (register E sc ms)
          (Keeps-handle_state E ms (stable-WasReady s idle))
          (Keeps-register E sc ms (stable-WasReady s idle).cluster_free)).at
        (record s { ucloud_machine = record_instance E s.ucloud_cluster i s.ucloud_machine })
        (record { held = λ ready. ready })).held

  -- The object of a machine whose instance is in an unexpected state.
  pub record IsFailed (m : UcloudMachine) : Type 0 where
    pub reason : m.status.failure_reason ≡ some E.update_machine_error
    pub message : m.status.failure_message ≡ some (unexpected_state E i)
    pub unready : m.status.ready ≡ false

  unexpected :
      (i.state == E.state_running) ≡ false
      → (i.state == E.state_initializing || i.state == E.state_starting) ≡ false
      → is_empty i.state ≡ false
      → handle_state E ms i ≡ (
          update_machine (mark_failed E (unexpected_state E i)) >>= λ _.
          if_control_plane E ms (del_real_server E i.uhost_id) >>= λ _. pure none)
  unfolding handle_state
  unexpected idle settled named = rw (idle, settled, named) refl

  -- What follows the mark keeps it.
  Keeps-IsFailed : Keeps (Has {W = E.World} IsFailed) (
      (if_control_plane E ms (del_real_server E i.uhost_id) >>= λ _. pure none)
      >>= register E sc ms)
  Keeps-IsFailed =
      Keeps-bind _ _ (Keeps-bind _ _ (Keeps-if_control_plane E ms _) (λ _. Keeps-pure none)) (
        Keeps-register E sc ms
          (λ id m h. record { reason = h.reason; message = h.message; unready = h.unready }))

  -- If the instance is in a state that is neither the running state, nor one of the two states of its
  -- start, nor empty, then the machine is marked as failed: it has the failure's reason, a message that
  -- names the instance and its state, and it is not ready, whether or not the following calls succeed.
  pub settle_instance-IsFailed :
      (s : MachineState E.World)
      → (i.state == E.state_running) ≡ false
      → (i.state == E.state_initializing || i.state == E.state_starting) ≡ false
      → is_empty i.state ≡ false
      → IsFailed (settle_instance E sc ms i s).1.ucloud_machine
  unfolding settle_instance update_machine ◌>>=◌
  settle_instance-IsFailed s idle settled named =
      rw (unexpected idle settled named)
        (Keeps-IsFailed.at
          (record s {
            ucloud_machine =
                mark_failed E (unexpected_state E i)
                  (record_instance E s.ucloud_cluster i s.ucloud_machine);
          })
          (record { held = record { reason = refl; message = refl; unready = refl } })).held
