-- ===== src/Controller/Machine/Once.antt =====
-- A machine that has the id of an instance gets no second one.
use cluster_api_provider_ucl.Prelude.{
  ◌≡◌, ap, ◌∙◌, String, Bool, true, false, not, Option, none, some, All, if◌then◌else◌,
}
use cluster_api_provider_ucl.Go.{Exec, Result, ok, err, panic, continue, pure, ◌>>=◌}
use cluster_api_provider_ucl.Go.Keeps.{Keeps, Keeps-pure, Keeps-bind, Keeps-wrapping}
use cluster_api_provider_ucl.Api.Machine.{UcloudMachine}
use cluster_api_provider_ucl.Cloud.{Environment, UhostInstanceSet, patch_machine, delete_machine}
use cluster_api_provider_ucl.Scope.{ClusterScope, MachineState, MachineOp, on_cluster}
use cluster_api_provider_ucl.Scope.Machine
use cluster_api_provider_ucl.Scope.Machine.{MachineScope}
use cluster_api_provider_ucl.Service.Emits.{Keeps-request, Keeps-update_cluster}
use cluster_api_provider_ucl.Controller.Cluster.{add_mark}
use cluster_api_provider_ucl.Controller.Cluster.Emits.{Keeps-patch_object}
use cluster_api_provider_ucl.Controller.Finalizers.{CtrlResult, done, machine_mark}
use cluster_api_provider_ucl.Controller.Machine.{
  with_machine, provider_id, settle_instance, give_up, without_instance, reconcile_instance,
  when_prepared, proceed, has_failed, reconcile,
}
use cluster_api_provider_ucl.Controller.Machine.Records.{settle_instance-IsRecorded}
use cluster_api_provider_ucl.Controller.Machine.Emits.{
  SparesHosts, MachineEmits, AnyMachine, Keeps-on_cluster, Keeps-update_machine,
  Keeps-instance_if_exists, Keeps-settle_instance,
}

-- From a machine with `J` on, the hosts are spared; the machine may lose `J`.
record Avoids {W A : Type 0} (J : UcloudMachine → Type 0) (m : Exec (MachineState W) A)
    : Type 0 where
  pub at : (s : MachineState W) → MachineEmits J s → All SparesHosts (m s).1.base.events

module _ {W A : Type 0} {J : UcloudMachine → Type 0} where
  Avoids-Keeps :
      {K : UcloudMachine → Type 0} (m : Exec (MachineState W) A)
      → ((u : UcloudMachine) → J u → K u)
      → Keeps (MachineEmits K) m
      → Avoids J m
  Avoids-Keeps m weaker kept = record {
    at = λ s h.
        (kept.at s (record { machine = weaker s.ucloud_machine h.machine; sent = h.sent })).sent;
  }

  Avoids-if :
      (test : Bool) (m n : Exec (MachineState W) A)
      → Avoids J m
      → Avoids J n
      → Avoids J (if test then m else n)
  Avoids-if true m n am an = am
  Avoids-if false m n am an = an

module _ {W A B : Type 0} {J : UcloudMachine → Type 0} where
  went_on :
      (r : Result A) (f : A → Exec (MachineState W) B) (s : MachineState W)
      → MachineEmits J s
      → ((a : A) → Avoids J (f a))
      → All SparesHosts (continue r f s).1.base.events
  went_on (ok a) f s h k = (k a).at s h
  went_on (err e) f s h k = h.sent
  went_on (panic why) f s h k = h.sent

  Avoids-bind :
      (m : Exec (MachineState W) A) (f : A → Exec (MachineState W) B)
      → Keeps (MachineEmits J) m
      → ((a : A) → Avoids J (f a))
      → Avoids J (m >>= f)
  unfolding ◌>>=◌
  Avoids-bind m f kept k = record { at = λ s h. went_on (m s).0 f (m s).1 (kept.at s h) k }

module _ (E : Environment) (sc : ClusterScope) (ms : MachineScope) (id : String) where
  abbrev HasId : UcloudMachine → Type 0
  HasId m = Machine.get_instance_id E m ≡ some id

  Avoids-settle_instance : (i : UhostInstanceSet) → Avoids HasId (settle_instance E sc ms i)
  Avoids-settle_instance i = Avoids-Keeps _ (λ u j. tt) (Keeps-settle_instance E sc ms i)

  Avoids-give_up : Avoids HasId (give_up E sc ms)
  unfolding give_up
  Avoids-give_up =
      Avoids-Keeps {K = AnyMachine} _ (λ u j. tt)
        (Keeps-bind _ _ (Keeps-update_machine E _ (λ u j. tt)) (λ _.
          Keeps-bind _ _ (Keeps-on_cluster E _ (Keeps-request E _ (delete_machine _) tt))
            (λ _. Keeps-pure _)))

  without_host :
      (s : MachineState E.World) (o : Option String)
      → o ≡ some id
      → MachineEmits HasId s
      → All SparesHosts (without_instance E sc ms o s).1.base.events
  unfolding without_instance
  without_host s none e h = cc
  without_host s (some j) e h = Avoids-give_up.at s h

  Avoids-found :
      (o : Option UhostInstanceSet)
      → Avoids HasId (elim o as (λ _. MachineOp E CtrlResult) [
        | some i ↦ settle_instance E sc ms i
        | none ↦ with_machine (λ m. without_instance E sc ms (Machine.get_instance_id E m))
      ])
  unfolding with_machine
  Avoids-found (some i) = Avoids-settle_instance i
  Avoids-found none = record { at = λ s h. without_host s _ h.machine h }

  Avoids-reconcile_instance : Avoids HasId (reconcile_instance E sc ms)
  unfolding reconcile_instance
  Avoids-reconcile_instance =
      Avoids-bind _ _ (Keeps-wrapping _ _ _ (Keeps-instance_if_exists E)) Avoids-found

  secret_there :
      (o : Option String)
      → Avoids HasId (elim o as (λ _. MachineOp E CtrlResult) [
        | none ↦ pure done
        | some _ ↦ reconcile_instance E sc ms
      ])
  secret_there none = Avoids-Keeps _ (λ u j. j) (Keeps-pure _)
  secret_there (some x) = Avoids-reconcile_instance

  Avoids-when_prepared : Avoids HasId (when_prepared E sc ms)
  unfolding when_prepared
  Avoids-when_prepared =
      Avoids-if (not ms.cluster.infrastructure_ready) _ _ (Avoids-Keeps _ (λ u j. j) (Keeps-pure _))
        (secret_there ms.machine.data_secret_name)

  Keeps-patch_machine : Keeps (MachineEmits HasId) (Machine.patch_object E)
  unfolding Machine.patch_object
  Keeps-patch_machine = record {
    at = λ s. (Keeps-on_cluster E _ (Keeps-request E _ (patch_machine s.ucloud_machine) tt)).at s;
  }

  Keeps-marked :
      Keeps
        (MachineEmits HasId)
        (with_machine (λ m. on_cluster E (add_mark E (machine_mark m.meta.name))))
  unfolding with_machine add_mark
  Keeps-marked = record {
    at = λ s. (Keeps-on_cluster E _ (Keeps-update_cluster _ (λ c i. tt))).at s;
  }

  Avoids-proceed : Avoids HasId (proceed E sc ms)
  unfolding proceed
  Avoids-proceed = Avoids-bind _ _ (Keeps-update_machine E _ (λ m j. j)) (λ _.
      Avoids-bind _ _ Keeps-patch_machine (λ _. Avoids-bind _ _ Keeps-marked (λ _.
        Avoids-bind _ _ (Keeps-on_cluster E _ (Keeps-patch_object E (λ c i. tt)))
          (λ _. Avoids-when_prepared))))

  -- For a machine whose provider id names an instance the method `reconcile`, which is the reconciliation
  -- and not `reconcileDelete`, never creates, powers off or terminates a host, whatever UCloud answers: if
  -- nothing of that kind was sent before `reconcile`, nothing has been sent after it. A host that is not
  -- found again fails the machine; it is not replaced.
  pub reconcile-SparesHosts :
      (s : MachineState E.World)
      → Machine.get_instance_id E s.ucloud_machine ≡ some id
      → All SparesHosts s.base.events
      → All SparesHosts (reconcile E sc ms s).1.base.events
  unfolding reconcile with_machine
  reconcile-SparesHosts s has before =
      (Avoids-if (has_failed E sc ms s.ucloud_machine) _ _
          (Avoids-Keeps _ (λ u j. j) (Keeps-pure _)) Avoids-proceed).at
        s (record { machine = has; sent = before })

module _ (E : Environment) (sc : ClusterScope) (ms : MachineScope) where
  -- Let the id of an instance be read back from its provider id. Once the controller has settled that
  -- instance for a machine, be it with an error or a panic, every `reconcile` of a machine with the
  -- provider id that was then left in the spec creates, powers off and terminates no host: as long as
  -- the object is stored, a machine that has got a host never gets a second one.
  pub settled-SparesHosts :
      (i : UhostInstanceSet) (s t : MachineState E.World)
      → E.parse_provider_id (provider_id E s.ucloud_cluster i) ≡ some i.uhost_id
      → t.ucloud_machine.spec.provider_id
        ≡ (settle_instance E sc ms i s).1.ucloud_machine.spec.provider_id
      → All SparesHosts t.base.events
      → All SparesHosts (reconcile E sc ms t).1.base.events
  settled-SparesHosts i s t reads same before =
      reconcile-SparesHosts E sc ms i.uhost_id t
        (ap (λ o. E.parse_provider_id (elim o [ some x ↦ x | none ↦ "" ]))
            (same ∙ (settle_instance-IsRecorded E sc ms i s).provider)
          ∙ reads)
        before
