-- ===== src/Controller/Machine/Records.antt =====
-- What the reconciler of a machine writes into its object about an instance.
use cluster_api_provider_ucl.Prelude.{
  true, ◌≡◌, refl, String, ◌||◌, Option, none, some, is_empty, ◌==◌,
}
use cluster_api_provider_ucl.Go.{pure, crash, ◌>>=◌}
use cluster_api_provider_ucl.Go.Keeps.{
  Keeps, Keeps-pure, Keeps-crash, Keeps-if, Keeps-bind, Keeps-wrapping,
}
use cluster_api_provider_ucl.Api.Cluster.{UcloudCluster}
use cluster_api_provider_ucl.Api.Machine.{UcloudMachine}
use cluster_api_provider_ucl.Cloud.{Environment, UhostInstanceSet}
use cluster_api_provider_ucl.Scope.{ClusterScope, Op, MachineState, on_cluster}
use cluster_api_provider_ucl.Scope.Machine
use cluster_api_provider_ucl.Scope.Machine.{MachineScope}
use cluster_api_provider_ucl.Service.Capu.{record_host, create_capu_host_for}
use cluster_api_provider_ucl.Controller.Finalizers.{CtrlResult, done, retry_after}
use cluster_api_provider_ucl.Controller.Machine.{
  with_machine, update_machine, get_addresses, provider_id, mark_failed, record_instance, need_id,
  if_control_plane, register, need_id, if_control_plane, register, need_id, if_control_plane,
  register, handle_state, settle_instance,
}

-- The machine's object has `P`.
pub record Has {W : Type 0} (P : UcloudMachine → Type 0) (s : MachineState W) : Type 0 where
  pub held : P s.ucloud_machine

-- `P` reads neither the failure nor the cluster's id in the machine's status, nor, if the instance
-- runs, the readiness.
pub record IsStable (E : Environment) (i : UhostInstanceSet) (P : UcloudMachine → Type 0)
    : Type 0 where
  pub ready_free :
      (i.state == E.state_running) ≡ true → (m : UcloudMachine) → P m → P (Machine.set_ready m)
  pub failure_free : (message : String) (m : UcloudMachine) → P m → P (mark_failed E message m)
  pub cluster_free :
      (id : String) (m : UcloudMachine)
      → P m
      → P (record m { status = record (m.status) { cluster_id = id } })

module _ (E : Environment) {P : UcloudMachine → Type 0} where
  pub Keeps-on_cluster : {A : Type 0} (m : Op E A) → Keeps (Has P) (on_cluster E m)
  unfolding on_cluster
  Keeps-on_cluster m = record { at = λ s h. record { held = h.held } }

  Keeps-update_machine :
      (f : UcloudMachine → UcloudMachine)
      → ((m : UcloudMachine) → P m → P (f m))
      → Keeps (Has {W = E.World} P) (update_machine f)
  unfolding update_machine
  Keeps-update_machine f k = record { at = λ s h. record { held = k s.ucloud_machine h.held } }

  needed :
      (o : Option String)
      → Keeps {A = Unit {0}}
          (Has {W = E.World} P)
          (elim o [ none ↦ crash "nil pointer dereference" | some _ ↦ pure tt ])
  needed none = Keeps-crash _
  needed (some id) = Keeps-pure tt

  Keeps-need_id : Keeps (Has P) (need_id E)
  unfolding need_id with_machine
  Keeps-need_id = record {
    at = λ s h. (needed (Machine.get_instance_id E s.ucloud_machine)).at s h;
  }

  pub Keeps-if_control_plane :
      (ms : MachineScope) (m : Op E Unit) → Keeps (Has P) (if_control_plane E ms m)
  unfolding if_control_plane
  Keeps-if_control_plane ms m =
      Keeps-if (Machine.is_control_plane ms) _ _ (λ _. Keeps-on_cluster m) (λ _. Keeps-pure tt)

module _ (E : Environment) (sc : ClusterScope) (ms : MachineScope) {P : UcloudMachine → Type 0}
    (free : (id : String) (m : UcloudMachine)
      → P m
      → P (record m { status = record (m.status) { cluster_id = id } })) where
  record_host_at : (s : MachineState E.World) → Has P s → Has P (record_host E sc s).1
  unfolding record_host
  record_host_at s h = record { held = free _ _ h.held }

  Keeps-create_capu_host_for : Keeps (Has P) (create_capu_host_for E sc ms)
  unfolding create_capu_host_for
  Keeps-create_capu_host_for = record {
    at = λ s.
        (Keeps-if (is_empty s.ucloud_machine.status.cluster_id) _ _
            (λ _. Keeps-bind _ _ (Keeps-on_cluster E _) (λ _. record { at = record_host_at }))
            (λ _. Keeps-pure tt)).at
          s;
  }

  pub Keeps-register : (o : Option CtrlResult) → Keeps (Has P) (register E sc ms o)
  unfolding register
  Keeps-register (some result) = Keeps-pure result
  Keeps-register none =
      Keeps-bind _ _ (Keeps-wrapping _ _ _ Keeps-create_capu_host_for) (λ _. Keeps-pure done)

module _ (E : Environment) (ms : MachineScope) {P : UcloudMachine → Type 0} {i : UhostInstanceSet}
    (stable : IsStable E i P) where
  pub Keeps-handle_state : Keeps (Has P) (handle_state E ms i)
  unfolding handle_state
  Keeps-handle_state =
      Keeps-if (i.state == E.state_running) _ _
        (λ runs. Keeps-bind _ _ (Keeps-need_id E) (λ _.
          Keeps-bind _ _ (Keeps-update_machine E _ (stable.ready_free runs))
            (λ _. Keeps-bind _ _ (Keeps-if_control_plane E ms _) (λ _. Keeps-pure none))))
        (λ _.
          Keeps-if (i.state == E.state_initializing || i.state == E.state_starting) _ _
            (λ _. Keeps-bind _ _ (Keeps-need_id E) (λ _. Keeps-pure none))
            (λ _.
              Keeps-if (is_empty i.state) _ _ (λ _. Keeps-pure (some (retry_after 5)))
                (λ _.
                  Keeps-bind _ _ (Keeps-update_machine E _ (stable.failure_free _))
                    (λ _. Keeps-bind _ _ (Keeps-if_control_plane E ms _) (λ _. Keeps-pure none)))))

-- The machine's object describes the instance: its id in the project of the cluster, its zone, its
-- state and its addresses.
pub record IsRecorded (E : Environment) (c : UcloudCluster) (i : UhostInstanceSet)
    (m : UcloudMachine) : Type 0 where
  pub provider : m.spec.provider_id ≡ some (provider_id E c i)
  pub instance_of : m.status.instance_id ≡ i.uhost_id
  pub zone_of : m.status.zone ≡ i.zone
  pub state_of : m.status.instance_status ≡ i.state
  pub addresses_of : m.status.addresses ≡ get_addresses E i

stable-IsRecorded :
    (E : Environment) (c : UcloudCluster) (i : UhostInstanceSet) → IsStable E i (IsRecorded E c i)
stable-IsRecorded E c i = record {
  ready_free = λ r m h. record {
    provider = h.provider;
    instance_of = h.instance_of;
    zone_of = h.zone_of;
    state_of = h.state_of;
    addresses_of = h.addresses_of;
  };
  failure_free = λ t m h. record {
    provider = h.provider;
    instance_of = h.instance_of;
    zone_of = h.zone_of;
    state_of = h.state_of;
    addresses_of = h.addresses_of;
  };
  cluster_free = λ t m h. record {
    provider = h.provider;
    instance_of = h.instance_of;
    zone_of = h.zone_of;
    state_of = h.state_of;
    addresses_of = h.addresses_of;
  };
}

module _ (E : Environment) (sc : ClusterScope) (ms : MachineScope) where
  -- Once the reconciler of a machine has an instance, the machine's object has the instance's provider
  -- id, id, zone, state and addresses afterwards, whatever the state of the instance is and whether or
  -- not the following calls succeed: no error makes the provider forget an instance that exists.
  pub settle_instance-IsRecorded :
      (i : UhostInstanceSet) (s : MachineState E.World)
      → IsRecorded E s.ucloud_cluster i (settle_instance E sc ms i s).1.ucloud_machine
  unfolding settle_instance record_instance update_machine ◌>>=◌
  settle_instance-IsRecorded i s =
      ((Keeps-bind (handle_state E ms i) (register E sc ms)
          (Keeps-handle_state E ms (stable-IsRecorded E s.ucloud_cluster i))
          (Keeps-register E sc ms (stable-IsRecorded E s.ucloud_cluster i).cluster_free)).at
        (record s { ucloud_machine = record_instance E s.ucloud_cluster i s.ucloud_machine })
        (record {
          held = record {
            provider = refl;
            instance_of = refl;
            zone_of = refl;
            state_of = refl;
            addresses_of = refl;
          };
        })).held
