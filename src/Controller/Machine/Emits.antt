-- ===== src/Controller/Machine/Emits.antt =====
-- What the reconciler of a machine sends beside the creation of its host.
use cluster_api_provider_ucl.Prelude.{
  String, ◌||◌, Option, none, some, All, is_empty, ◌==◌, find_first,
}
use cluster_api_provider_ucl.Go.{pure, crash}
use cluster_api_provider_ucl.Go.Keeps.{
  Keeps, Keeps-pure, Keeps-fail, Keeps-crash, Keeps-if, Keeps-bind, Keeps-wrapping, Keeps-option,
  Keeps-list,
}
use cluster_api_provider_ucl.Api.Cluster.{UcloudCluster}
use cluster_api_provider_ucl.Api.Machine.{UcloudMachine}
use cluster_api_provider_ucl.Cloud.{
  Environment, UhostInstanceSet, describe_uhost_instance, poweroff_uhost_instance,
  terminate_uhost_instance, create_uhost_instance, describe_vserver, allocate_backend,
  release_backend, create_capu_host,
}
use cluster_api_provider_ucl.Scope.{
  ClusterScope, State, MachineState, Event, called, Op, on_cluster,
}
use cluster_api_provider_ucl.Scope.Machine
use cluster_api_provider_ucl.Scope.Machine.{MachineScope}
use cluster_api_provider_ucl.Service.Emits.{Emits, Keeps-with_cluster, Keeps-request}
use cluster_api_provider_ucl.Service.Request.Emits.{Keeps-do_request, Keeps-common_base}
use cluster_api_provider_ucl.Service.Backend.{
  serves, described_vserver, attach, detach, add_real_server, del_real_server,
}
use cluster_api_provider_ucl.Service.Capu.{create_capu_host_for, record_host}
use cluster_api_provider_ucl.Service.Instance.{look_for_id, instance_if_exists}
use cluster_api_provider_ucl.Controller.Finalizers.{CtrlResult, done, retry_after}
use cluster_api_provider_ucl.Controller.Machine.{
  with_machine, update_machine, if_control_plane, need_id, handle_state, register, settle_instance,
}

-- Neither a creation, nor a power-off, nor a termination of a host.
abbrev pub SparesHosts : Event → Type 0
SparesHosts (called (create_uhost_instance r)) = ⊥
SparesHosts (called (poweroff_uhost_instance r)) = ⊥
SparesHosts (called (terminate_uhost_instance r)) = ⊥
SparesHosts _ = Unit {0}

abbrev pub Spared : {W : Type 0} → State W → Type 0
Spared = Emits (λ c. Unit {0}) SparesHosts

-- The machine's object has `J`, and every event spares the hosts.
pub record MachineEmits {W : Type 0} (J : UcloudMachine → Type 0) (s : MachineState W)
    : Type 0 where
  pub machine : J s.ucloud_machine
  pub sent : All SparesHosts s.base.events

module _ (E : Environment) where
  Keeps-described_vserver : (c : UcloudCluster) → Keeps Spared (described_vserver E c)
  unfolding described_vserver
  Keeps-described_vserver c =
      Keeps-bind _ _ (Keeps-request E _ (describe_vserver _) tt)
        (λ vservers. Keeps-list vservers _ _ (λ v vs. Keeps-pure _) (Keeps-fail _))

  Keeps-add_real_server : (host : String) → Keeps Spared (add_real_server E host)
  unfolding add_real_server attach
  Keeps-add_real_server host = Keeps-with_cluster _ (λ c i.
      Keeps-bind _ _ (Keeps-described_vserver c) (λ backends.
        Keeps-option (find_first (serves host) backends) _ _ (λ _. Keeps-pure tt)
          (Keeps-request E _ (allocate_backend _) tt)))

  Keeps-detach : (c : UcloudCluster) (host id : String) → Keeps Spared (detach E c host id)
  unfolding detach
  Keeps-detach c host id =
      Keeps-if (is_empty id) _ _ (λ _. Keeps-pure tt)
        (λ _. Keeps-request E _ (release_backend _) tt)

  Keeps-del_real_server : (host : String) → Keeps Spared (del_real_server E host)
  unfolding del_real_server
  Keeps-del_real_server host = Keeps-with_cluster _ (λ c i.
      Keeps-bind _ _ (Keeps-described_vserver c) (λ backends.
        Keeps-option (find_first (serves host) backends) _ _ (λ b. Keeps-detach c host b.backend_id)
          (Keeps-detach c host "")))

  Keeps-look_for_id : (m : UcloudMachine) (o : Option String) → Keeps Spared (look_for_id E m o)
  unfolding look_for_id
  Keeps-look_for_id m none = Keeps-pure none
  Keeps-look_for_id m (some id) = Keeps-with_cluster _ (λ c i.
      Keeps-bind _ _ (Keeps-request E _ (describe_uhost_instance _) tt) (λ hosts. Keeps-pure _))

module _ (E : Environment) {J : UcloudMachine → Type 0} where
  pub Keeps-on_cluster :
      {A : Type 0} (m : Op E A) → Keeps Spared m → Keeps (MachineEmits J) (on_cluster E m)
  unfolding on_cluster
  Keeps-on_cluster m kept = record {
    at = λ s h. record {
      machine = h.machine;
      sent = (kept.at s.base (record { object = tt; sent = h.sent })).sent;
    };
  }

  pub Keeps-update_machine :
      (f : UcloudMachine → UcloudMachine)
      → ((m : UcloudMachine) → J m → J (f m))
      → Keeps (MachineEmits {W = E.World} J) (update_machine f)
  unfolding update_machine
  Keeps-update_machine f k = record {
    at = λ s h. record { machine = k s.ucloud_machine h.machine; sent = h.sent };
  }

  pub Keeps-instance_if_exists : Keeps (MachineEmits J) (instance_if_exists E)
  unfolding instance_if_exists
  Keeps-instance_if_exists = record {
    at = λ s. (Keeps-on_cluster _ (Keeps-look_for_id E s.ucloud_machine _)).at s;
  }

  Keeps-if_control_plane :
      (ms : MachineScope) (m : Op E Unit)
      → Keeps Spared m
      → Keeps (MachineEmits J) (if_control_plane E ms m)
  unfolding if_control_plane
  Keeps-if_control_plane ms m k =
      Keeps-if (Machine.is_control_plane ms) _ _ (λ _. Keeps-on_cluster m k) (λ _. Keeps-pure tt)

-- Nothing is asked of the machine's object.
abbrev pub AnyMachine : UcloudMachine → Type 0
AnyMachine m = Unit {0}

module _ (E : Environment) (ms : MachineScope) where
  needed :
      (o : Option String)
      → Keeps {A = Unit {0}}
          (MachineEmits {W = E.World} AnyMachine)
          (elim o [ none ↦ crash "nil pointer dereference" | some _ ↦ pure tt ])
  needed none = Keeps-crash _
  needed (some id) = Keeps-pure tt

  Keeps-need_id : Keeps (MachineEmits AnyMachine) (need_id E)
  unfolding need_id with_machine
  Keeps-need_id = record {
    at = λ s h. (needed (Machine.get_instance_id E s.ucloud_machine)).at s h;
  }

  Keeps-handle_state :
      (i : UhostInstanceSet) → Keeps (MachineEmits AnyMachine) (handle_state E ms i)
  unfolding handle_state
  Keeps-handle_state i =
      Keeps-if (i.state == E.state_running) _ _
        (λ runs. Keeps-bind _ _ Keeps-need_id (λ _.
          Keeps-bind _ _ (Keeps-update_machine E _ (λ m j. tt)) (λ _.
            Keeps-bind _ _ (Keeps-if_control_plane E ms _ (Keeps-add_real_server E _))
              (λ _. Keeps-pure none))))
        (λ _.
          Keeps-if (i.state == E.state_initializing || i.state == E.state_starting) _ _
            (λ _. Keeps-bind _ _ Keeps-need_id (λ _. Keeps-pure none))
            (λ _.
              Keeps-if (is_empty i.state) _ _ (λ _. Keeps-pure (some (retry_after 5)))
                (λ _. Keeps-bind _ _ (Keeps-update_machine E _ (λ m j. tt)) (λ _.
                  Keeps-bind _ _ (Keeps-if_control_plane E ms _ (Keeps-del_real_server E _))
                    (λ _. Keeps-pure none)))))

module _ (E : Environment) (sc : ClusterScope) (ms : MachineScope) where
  recorded :
      (s : MachineState E.World)
      → MachineEmits AnyMachine s
      → MachineEmits AnyMachine (record_host E sc s).1
  unfolding record_host
  recorded s h = record { machine = tt; sent = h.sent }

  Keeps-create_capu_host_for : Keeps (MachineEmits AnyMachine) (create_capu_host_for E sc ms)
  unfolding create_capu_host_for
  Keeps-create_capu_host_for = record {
    at = λ s.
        (Keeps-if (is_empty s.ucloud_machine.status.cluster_id) _ _
            (λ _.
              Keeps-bind _ _
                (Keeps-on_cluster E _ (
                  Keeps-with_cluster _ (λ c i. Keeps-bind _ _ (Keeps-common_base E _ c) (λ base.
                    Keeps-bind _ _
                      (Keeps-wrapping _ _ _ (Keeps-do_request E sc (create_capu_host _) _ tt))
                      (λ _. Keeps-pure tt)))))
                (λ _. record { at = recorded }))
            (λ _. Keeps-pure tt)).at
          s;
  }

  Keeps-register : (o : Option CtrlResult) → Keeps (MachineEmits AnyMachine) (register E sc ms o)
  unfolding register
  Keeps-register (some result) = Keeps-pure result
  Keeps-register none =
      Keeps-bind _ _ (Keeps-wrapping _ _ _ Keeps-create_capu_host_for) (λ _. Keeps-pure done)

  pub Keeps-settle_instance :
      (i : UhostInstanceSet) → Keeps (MachineEmits AnyMachine) (settle_instance E sc ms i)
  unfolding settle_instance
  Keeps-settle_instance i = record {
    at = λ s.
        (Keeps-bind _ _ (Keeps-update_machine E _ (λ m j. tt))
            (λ _. Keeps-bind _ _ (Keeps-handle_state E ms i) Keeps-register)).at
          s;
  }
