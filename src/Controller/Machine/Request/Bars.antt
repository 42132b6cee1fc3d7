-- ===== src/Controller/Machine/Request/Bars.antt =====
-- The requests that the reconciler of machines leaves alone.
use cluster_api_provider_ucl.Prelude.{
  ◌≡◌, refl, String, Bool, true, false, inl, inr, Option, none, some, All, All-append, ◌⊎◌,
  if◌then◌else◌,
}
use cluster_api_provider_ucl.Go.{Error, Result, ok, err, fail, pure, ◌>>=◌}
use cluster_api_provider_ucl.Api.Cluster.{UcloudCluster}
use cluster_api_provider_ucl.Api.Machine.{UcloudMachine, Machine as CapiMachine}
use cluster_api_provider_ucl.Cloud.{
  Environment, Call, get_ucloud_machine, get_owner_machine, get_cluster_from_metadata,
}
use cluster_api_provider_ucl.Scope.{MachineState, State, Event, called, call, on_cluster}
use cluster_api_provider_ucl.Scope.Calls.{reply_to, after_call}
use cluster_api_provider_ucl.Scope.Cluster.{Defaults}
use cluster_api_provider_ucl.Controller.Pause.{is_paused}
use cluster_api_provider_ucl.Controller.Finalizers.{CtrlResult, done}
use cluster_api_provider_ucl.Controller.Machine.Request.{
  with_object, with_owner, with_capi_cluster, reconcile_request,
}

-- A read of the machine, of its owner or of the cluster that its labels name.
abbrev pub IsRead : Event → Type 0
IsRead (called (get_ucloud_machine namespace name)) = Unit
IsRead (called (get_owner_machine m)) = Unit
IsRead (called (get_cluster_from_metadata m)) = Unit
IsRead _ = ⊥

module _ (E : Environment) (namespace name : String) (t : MachineState E.World) where
  abbrev object_call : Call
  object_call = get_ucloud_machine namespace name

  abbrev m : UcloudMachine
  m = (reply_to E object_call t.base).body

  abbrev read_object : State E.World
  read_object = after_call E object_call t.base

  abbrev owner_call : Call
  owner_call = get_owner_machine m.meta

  abbrev read_owner : State E.World
  read_owner = after_call E owner_call read_object

  abbrev cluster_call : CapiMachine → Call
  cluster_call machine = get_cluster_from_metadata machine.meta

  -- The machine's object and its owner are read without an error.
  pub record IsOwned (machine : CapiMachine) : Type 0 where
    pub object_read : (reply_to E object_call t.base).error ≡ none
    pub owner_read : (reply_to E owner_call read_object).error ≡ none
    pub owner_is : (reply_to E owner_call read_object).body ≡ some machine

  -- Why a request is left alone.
  pub data Barred : Type 0 where
    unread : (e : Error) → (reply_to E object_call t.base).error ≡ some e → Barred
    owner_unread :
        (e : Error)
        → (reply_to E object_call t.base).error ≡ none
        → (reply_to E owner_call read_object).error ≡ some e
        → Barred
    ownerless :
        (reply_to E object_call t.base).error ≡ none
        → (reply_to E owner_call read_object).error ≡ none
        → (reply_to E owner_call read_object).body ≡ none
        → Barred
    clusterless :
        (machine : CapiMachine) (e : Error)
        → IsOwned machine
        → (reply_to E (cluster_call machine) read_owner).error ≡ some e
        → Barred
    paused :
        (machine : CapiMachine)
        → IsOwned machine
        → (reply_to E (cluster_call machine) read_owner).error ≡ none
        → is_paused E (some (reply_to E (cluster_call machine) read_owner).body) m.meta ≡ true
        → Barred

  -- Nothing was written and nothing was sent but reads.
  pub record LeftAlone (r : Result CtrlResult × MachineState E.World) : Type 0 where
    pub calm : (r.0 ≡ ok done) ⊎ ((e : Error) × (r.0 ≡ err e))
    pub machine_same : r.1.ucloud_machine ≡ t.ucloud_machine
    pub cluster_same : r.1.base.ucloud_cluster ≡ t.base.ucloud_cluster
    pub reads : All IsRead r.1.base.events

  -- A state in which only reads were sent since.
  record HasRead (s : State E.World) : Type 0 where
    object_same : s.ucloud_cluster ≡ t.base.ucloud_cluster
    only_reads : All IsRead s.events

  finished : (s : State E.World) → HasRead s → LeftAlone (ok done, record t { base = s })
  finished s h = record {
    calm = inl refl;
    machine_same = refl;
    cluster_same = h.object_same;
    reads = h.only_reads;
  }

  failed : (s : State E.World) (e : Error) → HasRead s → LeftAlone (err e, record t { base = s })
  failed s e h = record {
    calm = inr (e, refl);
    machine_same = refl;
    cluster_same = h.object_same;
    reads = h.only_reads;
  }

  one_read : All IsRead t.base.events → HasRead read_object
  one_read before = record {
    object_same = refl;
    only_reads = All-append IsRead t.base.events _ before (tt, tt);
  }

  two_reads : All IsRead t.base.events → HasRead read_owner
  two_reads before = record {
    object_same = refl;
    only_reads = All-append IsRead read_object.events _ (one_read before).only_reads (tt, tt);
  }

  three_reads :
      (machine : CapiMachine)
      → All IsRead t.base.events
      → HasRead (after_call E (cluster_call machine) read_owner)
  three_reads machine before = record {
    object_same = refl;
    only_reads = All-append IsRead read_owner.events _ (two_reads before).only_reads (tt, tt);
  }

  unread_or_missing :
      (e : Error) (missing : Bool)
      → All IsRead t.base.events
      → LeftAlone ((if missing then pure done else fail e) (record t { base = read_object }))
  unfolding ◌>>=◌
  unread_or_missing e true before = finished _ (one_read before)
  unread_or_missing e false before = failed _ e (one_read before)

  module _ (d : Defaults) (cluster_helper_error : UcloudCluster → Option Error)
      (machine_helper_error : UcloudMachine → Option Error) where
    -- Say that the machine's object or its owner can not be read, that it has no owner, that the cluster
    -- of its owner can not be read, or that this cluster or the machine is paused. Then `Reconcile` ends
    -- with success and no requeue or with an error, never with a panic, the objects in the state are as
    -- they were, and if only reads were sent before, only reads were sent after: nothing goes to UCloud
    -- and nothing is patched.
    pub reconcile_request-LeftAlone :
        Barred
        → All IsRead t.base.events
        → LeftAlone
            (reconcile_request E d cluster_helper_error machine_helper_error namespace name t)
    unfolding reconcile_request with_object with_owner with_capi_cluster on_cluster call ◌>>=◌
    reconcile_request-LeftAlone (unread e p) before =
        rw p (unread_or_missing e (E.is_not_found e) before)
    reconcile_request-LeftAlone (owner_unread e p q) before =
        rw (p, q) (failed _ e (two_reads before))
    reconcile_request-LeftAlone (ownerless p q n) before =
        rw (p, q) (rw n (finished _ (two_reads before)))
    reconcile_request-LeftAlone (clusterless machine e o p) before =
        rw (o.object_read, o.owner_read)
          (rw o.owner_is (rw p (finished _ (three_reads machine before))))
    reconcile_request-LeftAlone (paused machine o p q) before =
        rw (o.object_read, o.owner_read)
          (rw o.owner_is (rw p (rw q (finished _ (three_reads machine before)))))
