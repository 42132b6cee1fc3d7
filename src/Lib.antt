-- ===== src/Lib.antt =====
-- cluster-api-provider-ucloud: a provider of the Kubernetes Cluster API that makes the machines and
-- the network of a cluster in UCloud. Two controllers react to changes of the objects UCloudCluster
-- and UCloudMachine. Each builds scopes around the objects, calls the services, which call the UCloud
-- SDK, and writes the status back when its scope is closed.
--
-- What models what (paths from the root of the repository):
--   Api/Network, Api/Cluster, Api/Machine: the structs of api/v1alpha3 (types.go,
--     ucloudcluster_types.go, ucloudmachine_types.go, ucloudmachinetemplate_types.go).
--   Defaults: the constants, tables of regions and name generators of cloud/common/defaults.go.
--   Scope, Scope/Cluster, Scope/Machine: cloud/scope (cluster.go, machine.go, clients.go). The objects
--     that the scopes point to are a part of the state; `with_cluster` reads and `update_cluster`
--     writes through the pointer.
--   Cloud, Cloud/Requests, Cloud/Responses, Cloud/Actions: what is outside of the program, the requests
--     and answers, and the structs of the actions that the SDK lacks (cloud/services/ugroup.go, uk8s.go
--     and ulb.go).
--   Service/Vpc, Subnet, Nat, Eip, Firewall, Ulb, Backend, Group, Capu, Request: cloud/services/vpc.go,
--     subnet.go, nat.go, eip.go, firewalls.go, ulb.go (Ulb and Backend), ugroup.go, uk8s.go, general.go.
--   Service/Instance, Bastion, Terminate, Wait, Timer: cloud/services/uhost.go; Terminate also has
--     `CleanResourceInGroup` of ugroup.go. Wait is the shape of the three waiting loops, Timer the part
--     of Go's time.Timer that they use.
--   Controller/Cluster, Finalizers, Pause: controllers/ucloudcluster_controller.go and helpers.go.
--   Webhook: api/v1alpha3/ucloudmachine_webhook.go and ucloudmachinetemplate_webhook.go.
--   Manager: main.go.
--   Controller/Machine, Requests: controllers/ucloudmachine_controller.go; Machine/Request has what
--     surrounds the scopes, Requests the mapping functions of both controllers.
--   Controller/Watches: `SetupWithManager` of both controllers.
--   Controller/Cluster/Lifecycle: what the API server has of a cluster after a sequence of runs, as a relation.
--   Go, Prelude: results, errors and panics of Go, and what is shared.
--
-- The state. An operation takes the cluster's object, the world outside and the list of the calls made
-- so far to a value, an error or a panic and the state afterwards (`Exec`, with do blocks); what was
-- written before an error stays written. Operations on a machine have the machine's object in the state
-- too. Two controllers that run at a time share no memory: each reads its own copy of the objects.
--
-- The environment. The SDK, the API server, the clock, chance and the third-party functions are the
-- fields of one record, `Cloud.Environment`, over an arbitrary type of worlds, and nearly every
-- definition has it as a parameter. A call may answer anything, and with an error or without. Where a
-- theorem needs more it says so: `IsClock` (a call does not turn the clock back, and a sleep moves it on
-- by its duration at least), `RemovesOne` (`RemoveFinalizer` removes the finalizer that it is given and
-- no other), `ShiftsSlice` (it does so in place, and shifts the slice that an earlier `GetFinalizers`
-- gave) and `GivesIds` (what UCloud lists and makes has an id; for the actions that the SDK lacks, what is
-- decoded from the texts that UCloud answers). `Tests` gives environments with each.
--
-- Numbers. Go's `int` values are integers that are passed on and compared, and no arithmetic is done
-- with them; `Atoi` clamps to int64. Times are natural numbers of milliseconds. Texts are compared
-- without regard to case over the ASCII letters.
--
-- The webhooks and the manager have parameters of their own: `Webhook.Machinery` is the converter to
-- unstructured maps, the type assertions and `reflect.DeepEqual`, over arbitrary types of objects and
-- values, and `Manager.main` takes the function that performs a step of controller-runtime.
-- `Controller.Watches.ControllerRuntime` is its `Build` and `Watch`, and `Watches.Wakes.Delivers` what it
-- makes of an event.
-- `Service.Backend.Balancer.IsBalancer` says what UCloud does with the backends of a virtual server, and
-- `Service.Wait.Passes.Promises` what it answers while a loop waits; `Tests` has an instance of each.
--
-- Bounds. The waiting loops take a bound of rounds: 31 for the two of `terminateUHost` (a timer of five
-- minutes, a pause of ten seconds), 11 for that of `CreateInstance` (a pause of thirty seconds). At the
-- bound the model panics with the text `no_rounds`. `Itoa` writes at most 20 digits, which an int64 does
-- not reach.
--
-- Not modelled: logging and the recording of events, which change nothing that the program reads; the
-- server of the profiler, and the construction of SDK clients; the generated deep copies; the
-- interfaces and getter adapters; tests, templates and manifests. `getExpBackoffDelay` is modelled
-- although nothing calls it.
pub mod Prelude
pub mod Go
pub mod Api
pub mod Cloud
pub mod Scope
pub mod Defaults
pub mod Service
pub mod Controller
pub mod Webhook
pub mod Manager
pub mod Tests
