-- ===== src/Controller/Cluster/Lifecycle.antt =====
-- A cluster's object as the API server has it, over any sequence of runs of its reconciler.
use cluster_api_provider_ucl.Prelude.{
  ◌≡◌, refl, ap, sym, ◌∙◌, ◌⊎◌, inl, inr, true, false, is_empty, String, List, [], ◌∷◌, ◌++◌, All,
}
use mathlib.Core.Path.{subst}
use cluster_api_provider_ucl.Go.Keeps.{Keeps, Keeps-if, Keeps-pure, Keeps-bind, Keeps-option}
use cluster_api_provider_ucl.Api.Cluster.{UcloudCluster, UcloudClusterSpec, ObjectMeta}
use cluster_api_provider_ucl.Api.Network.{Group, Network}
use cluster_api_provider_ucl.Cloud.{Environment, patch_cluster}
use cluster_api_provider_ucl.Scope.{ClusterScope, State, Event, called}
use cluster_api_provider_ucl.Scope.Cluster.{close, patch_object}
use cluster_api_provider_ucl.Scope.Calls.{request-state}
use cluster_api_provider_ucl.Service.Emits.{Emits, Keeps-with_cluster, Keeps-update_cluster}
use cluster_api_provider_ucl.Service.Bastion.Emits.{IgnoresHosts}
use cluster_api_provider_ucl.Service.Terminate.{forget_bastion}
use cluster_api_provider_ucl.Controller.Finalizers.{set_finalizers}
use cluster_api_provider_ucl.Controller.Cluster.{
  set_endpoint, set_ready, publish, reconcile_resources, reconcile_either, reconcile_and_close,
}
use cluster_api_provider_ucl.Controller.Cluster.Emits.{
  is_patch, any_network, any_teardown, Keeps-patch_object, Keeps-reconcile_delete,
}
use cluster_api_provider_ucl.Controller.Cluster.Makes.{
  AllowsMaking, Keeps-announce, Keeps-reconcile,
}
use cluster_api_provider_ucl.Controller.Cluster.Remembers.{
  Kept, recorded, Remembers, group_id, vpc_id, subnet_id, nat_id, ulb_id, Keeps-group_id,
  Keeps-vpc_id, Keeps-subnet_id, Keeps-nat_id, Keeps-ulb_id,
}

-- The event is in the list.
abbrev pub Sent : Event → List Event → Type 0
Sent e [] = ⊥
Sent e (x ∷ xs) = (x ≡ e) ⊎ Sent e xs

module _ (E : Environment) where
  -- A run of the reconciler on an object that was read, for an owner that was read too.
  abbrev pub run : ClusterScope → UcloudCluster → E.World → State E.World
  run sc c w = (reconcile_and_close E sc (record { ucloud_cluster = c; world = w; events = [] })).1

  -- What the API server may have, from the object `first` on: others edit the metadata and the spec,
  -- and a run of the reconciler, in any world and for any owner, stores an object that it patches. A run
  -- that is cut off stores what it had patched by then.
  pub data Stored (first : UcloudCluster) : UcloudCluster → Type 0 where
    untouched : Stored first first
    edited :
        (c : UcloudCluster) (meta : ObjectMeta) (spec : UcloudClusterSpec)
        → Stored first c
        → Stored first (record c { meta = meta; spec = spec })
    patched :
        (c c' : UcloudCluster) (sc : ClusterScope) (w : E.World)
        → Stored first c
        → Sent (called (patch_cluster c')) (run sc c w).events
        → Stored first c'

-- If the event is a patch, the object has `I`.
abbrev Patches : (UcloudCluster → Type 0) → Event → Type 0
Patches I e = (c : UcloudCluster) → e ≡ called (patch_cluster c) → I c

sent_has : (P : Event → Type 0) (e : Event) (xs : List Event) → Sent e xs → All P xs → P e
sent_has P e [] m all = absurd m
sent_has P e (x ∷ xs) (inl p) all = subst P p all.0
sent_has P e (x ∷ xs) (inr m) all = sent_has P e xs m all.1

-- `I` is about the ids alone.
record IsStable (E : Environment) (I : UcloudCluster → Type 0) : Type 0 where
  hosts : IgnoresHosts I
  marked : (fs : List String) (c : UcloudCluster) → I c → I (set_finalizers fs c)
  reached : (c : UcloudCluster) → I c → I (set_endpoint c)
  readied : (zones : List String) (c : UcloudCluster) → I c → I (set_ready zones c)
  forgets : (c : UcloudCluster) → I c → I (forget_bastion E c)
  changed :
      (meta : ObjectMeta) (spec : UcloudClusterSpec) (c : UcloudCluster)
      → I c
      → I (record c { meta = meta; spec = spec })

clash : {B : Type 0} → false ≡ true → B
clash p = cc

same_object : {c d : UcloudCluster} → called (patch_cluster c) ≡ called (patch_cluster d) → c ≡ d
same_object p = cc

quiet : (I : UcloudCluster → Type 0) (e : Event) → is_patch e ≡ false → Patches I e
quiet I e n c p = clash (sym n ∙ ap is_patch p)

module _ (E : Environment) (sc : ClusterScope) {I : UcloudCluster → Type 0} (stable : IsStable E I)
    (resources : Keeps (Emits I (Patches I)) (reconcile_resources E sc)) where
  sends_object : (c : UcloudCluster) → I c → Patches I (called (patch_cluster c))
  sends_object c i d p = subst I (same_object p) i

  making : AllowsMaking I (Patches I)
  making = record {
    network = any_network (quiet I);
    patches = sends_object;
    describes = λ r. quiet I _ refl;
    makes_host = λ r. quiet I _ refl;
    makes_cluster = λ r. quiet I _ refl;
  }

  Keeps-publish : Keeps (Emits I (Patches I)) (publish E sc)
  unfolding publish
  Keeps-publish = Keeps-with_cluster _ (λ c i.
      Keeps-if (is_empty c.status.network.ulb.eip.eip_addr) _ _ (λ _. Keeps-pure _)
        (λ _.
          Keeps-bind _ _ (Keeps-update_cluster _ stable.reached)
            (λ _. Keeps-announce E sc making stable.hosts c stable.readied)))

  Keeps-reconcile_either : Keeps (Emits I (Patches I)) (reconcile_either E sc)
  unfolding reconcile_either
  Keeps-reconcile_either = Keeps-with_cluster _ (λ c i.
      Keeps-option c.meta.deletion_timestamp _ _
        (λ _. Keeps-reconcile_delete E sc (any_teardown (quiet I) stable.forgets) stable.marked)
        (Keeps-reconcile E sc making stable.hosts resources stable.marked Keeps-publish))

  Keeps-reconcile_and_close :
      (s : State E.World)
      → Emits I (Patches I) s
      → Emits I (Patches I) (reconcile_and_close E sc s).1
  unfolding reconcile_and_close close
  Keeps-reconcile_and_close s h =
      (Keeps-patch_object E sends_object).at (reconcile_either E sc s).1
        (Keeps-reconcile_either.at s h)

  run-has :
      (c c' : UcloudCluster) (w : E.World)
      → I c
      → Sent (called (patch_cluster c')) (run E sc c w).events
      → I c'
  run-has c c' w i sent =
      sent_has (Patches I) _ _ sent
        (Keeps-reconcile_and_close (record { ucloud_cluster = c; world = w; events = [] })
          (record { object = i; sent = tt })).sent
        c' refl

Sent-last : (e : Event) (xs : List Event) → Sent e (xs ++ (e ∷ []))
Sent-last e [] = inl refl
Sent-last e (x ∷ xs) = inr (Sent-last e xs)

-- A run ends with a patch of the object that it leaves.
pub run-Sent :
    (E : Environment) (sc : ClusterScope) (c : UcloudCluster) (w : E.World)
    → Sent (called (patch_cluster (run E sc c w).ucloud_cluster)) (run E sc c w).events
unfolding reconcile_and_close close patch_object
run-Sent E sc c w = rw request-state (Sent-last _ _)

module _ (E : Environment) (first : UcloudCluster) where
  Stored-Kept :
      (id : UcloudCluster → String)
      → IsStable E (Kept id first)
      → ((sc : ClusterScope)
          → Keeps (Emits (Kept id first) (Patches (Kept id first))) (reconcile_resources E sc))
      → (c : UcloudCluster) → Stored E first c
      → Kept id first c
  Stored-Kept id stable resources c untouched = λ i. refl
  Stored-Kept id stable resources c (edited d meta spec before) =
      stable.changed meta spec d (Stored-Kept id stable resources d before)
  Stored-Kept id stable resources c (patched d c' sc w before sent) =
      run-has E sc stable (resources sc) d c w (Stored-Kept id stable resources d before) sent

  module _ (read : Group → Network → String) where
    abbrev id : UcloudCluster → String
    id c = read c.status.group c.status.network

    Kept-IsStable : IsStable E (Kept id first)
    Kept-IsStable = record {
      hosts = record { bastion_free = λ b c k. k; cluster_free = λ cluster_id c k. k };
      marked = λ fs c k. k;
      reached = λ c k. k;
      readied = λ zones c k. k;
      forgets = λ c k. k;
      changed = λ meta spec c k. k;
    }

  -- Take the cluster's object as the API server has it at some time, and again after any number of
  -- edits of its metadata and spec and of runs of the cluster's reconciler on the object as it was by then: in any
  -- world, of a reconciliation or of a deletion, that end with success, an error or a panic, or are cut
  -- off once an object is patched. Each of the ids of the group, the VPC, the subnet, the NAT gateway and
  -- the load balancer in the status of the first object, not an empty text, is that of the last one too.
  pub Stored-Remembers : (c : UcloudCluster) → Stored E first c → Remembers first c
  Stored-Remembers c stored = record {
    group_kept = recorded group_id first c (
        Stored-Kept group_id (Kept-IsStable (λ g n. g.group_id))
          (λ sc. Keeps-group_id E sc (any_network (quiet _)) first) c stored);
    vpc_kept = recorded vpc_id first c (
        Stored-Kept vpc_id (Kept-IsStable (λ g n. n.vpc.vpc_id))
          (λ sc. Keeps-vpc_id E sc (any_network (quiet _)) first) c stored);
    subnet_kept = recorded subnet_id first c (
        Stored-Kept subnet_id (Kept-IsStable (λ g n. n.subnet.subnet_id))
          (λ sc. Keeps-subnet_id E sc (any_network (quiet _)) first) c stored);
    nat_kept = recorded nat_id first c (
        Stored-Kept nat_id (Kept-IsStable (λ g n. n.nat.nat_gateway_id))
          (λ sc. Keeps-nat_id E sc (any_network (quiet _)) first) c stored);
    ulb_kept = recorded ulb_id first c (
        Stored-Kept ulb_id (Kept-IsStable (λ g n. n.ulb.load_balancer_id))
          (λ sc. Keeps-ulb_id E sc (any_network (quiet _)) first) c stored);
  }
