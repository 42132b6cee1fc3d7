-- ===== src/Scope.antt =====
-- cloud/scope: the scopes of a cluster and of a machine. What a scope only reads is a record; the
-- `UCloudCluster` and the `UCloudMachine`, which it holds by pointers and changes, are parts of the
-- state, with the world outside and the calls made so far.
pub mod Cluster
pub mod Machine
pub mod Calls
use cluster_api_provider_ucl.Prelude.{String, Option, List, [], ◌∷◌, ◌++◌, none, some}
use cluster_api_provider_ucl.Go.{Error, Exec, ok, pure, fail, ◌>>=◌}
use cluster_api_provider_ucl.Api.Cluster.{UcloudCluster, Cluster as CapiCluster}
use cluster_api_provider_ucl.Api.Machine.{UcloudMachine}
use cluster_api_provider_ucl.Cloud.{Call, Body, Reply, Request, Environment, Config, Credential}

-- What was sent: a call of the SDK or of the API server, or an action by `doRequest`.
pub data Event : Type 0 where
  called : Call → Event
  posted : Request → Event

pub record UcloudClients : Type 0 where
  pub config : Option Config
  pub credential : Option Credential

-- `ClusterScope` without its logger, its client and its patch helper.
pub record ClusterScope : Type 0 where
  pub clients : UcloudClients
  pub cluster : CapiCluster

-- The state of an operation on a cluster: the object that the scope points to, the outside world,
-- and the calls made so far in order.
pub record State (W : Type 0) : Type 0 where
  pub ucloud_cluster : UcloudCluster
  pub world : W
  pub events : List Event

-- The state of an operation on a machine, which also changes the machine's object.
pub record MachineState (W : Type 0) : Type 0 where
  pub base : State W
  pub open base use *
  pub ucloud_machine : UcloudMachine

abbrev pub Op : Environment → Type 0 → Type 0
Op E A = Exec (State E.World) A

abbrev pub MachineOp : Environment → Type 0 → Type 0
MachineOp E A = Exec (MachineState E.World) A

-- The scope's pointer to the cluster, read at the start of a method.
unfoldable pub with_cluster : {W A : Type 0} → (UcloudCluster → Exec (State W) A) → Exec (State W) A
with_cluster f s = f s.ucloud_cluster s

-- A write through that pointer.
unfoldable pub update_cluster : {W : Type 0} → (UcloudCluster → UcloudCluster) → Exec (State W) Unit
update_cluster f s = (ok tt, record s { ucloud_cluster = f s.ucloud_cluster })

module _ (E : Environment) where
  unfoldable pub call : (c : Call) → Op E (Reply (Body c))
  call c s =
      let answer = E.invoke c s.world in
      (ok answer.0, record s { world = answer.1; events = s.events ++ (called c ∷ []) })

  -- `res, err := client.Action(req); if err != nil { return f(err) }`.
  unfoldable pub request : (Error → Error) → (c : Call) → Op E (Body c)
  request f c = do reply ← call c; elim reply.error [ none ↦ pure reply.body | some e ↦ fail (f e) ]

  unfoldable pub on_cluster : {A : Type 0} → Op E A → MachineOp E A
  on_cluster m s = ((m s.base).0, record s { base = (m s.base).1 })
