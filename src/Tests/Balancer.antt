-- ===== src/Tests/Balancer.antt =====
-- A world that is the list of the backends of one virtual server. An id is given once only.
use cluster_api_provider_ucl.Prelude.{
  ◌≡◌, refl, String, Bool, true, false, ◌||◌, pos, none, some, List, [], ◌∷◌, ◌++◌, is_empty, ◌==◌,
  arith,
}
use cluster_api_provider_ucl.Go.{errorf}
use cluster_api_provider_ucl.Api.Cluster.{UcloudCluster}
use cluster_api_provider_ucl.Cloud.{
  Environment, Call, Body, Reply, UlbBackendSet, UlbVserverSet, describe_vserver, allocate_backend,
  release_backend,
}
use cluster_api_provider_ucl.Service.Backend.Keyed.{without, IsFresh}
use cluster_api_provider_ucl.Service.Backend.Balancer.{IsBalancer}
use cluster_api_provider_ucl.Tests.World.{body, environment_over}

abbrev World : Type 0
World = List UlbBackendSet

abbrev vserver : World → UlbVserverSet
vserver w = record {
  frontend_port = pos 6443;
  listen_type = "RequestProxy";
  method = "Roundrobin";
  monitor_type = "Port";
  protocol = "TCP";
  vserver_id = "vserver-1";
  vserver_name = "k8s-api-server";
  backend_set = w;
}

abbrev given : String → World → Bool
given id [] = false
given id (b ∷ bs) = b.backend_id == id || given id bs

abbrev fine : {A : Type 0} → A → Reply A
fine a = record { body = a; ret_code = pos 0; error = none }

-- The id of a backend is that of its host.
abbrev allocated : String → Bool → World → Reply (Unit {0}) × World
allocated host true w =
    (record { body = tt; ret_code = pos 1; error = some (errorf "exists" []) }, w)
allocated host false w = (fine tt, w ++ (record { backend_id = host; resource_id = host } ∷ []))

abbrev answer : (c : Call) → World → Reply (Body c) × World
answer (describe_vserver r) w = (fine (vserver w ∷ []), w)
answer (allocate_backend r) w =
    allocated r.resource_id (is_empty r.resource_id || given r.resource_id w) w
answer (release_backend r) w = (fine tt, without r.backend_id w)
answer c w = (fine (body [] [] c), w)

abbrev pub balancer : Environment
balancer = environment_over World answer (λ w. 0) (λ w. w) (λ d w. w)

given-IsFresh : (id : String) (w : World) → given id w ≡ false → IsFresh id w
given-IsFresh id [] p = tt
given-IsFresh id (b ∷ bs) p = (ground arith, given-IsFresh id bs (ground arith))

abbrev Joined : String → World → Reply (Unit {0}) × World → Type 0
Joined host w end =
    (id : String) × (is_empty id ≡ false)
    × IsFresh id w
    × (end.1 ≡ w ++ (record { backend_id = id; resource_id = host } ∷ []))

allocated-Joined :
    (host : String) (w : World) (bad : Bool)
    → (is_empty host || given host w) ≡ bad
    → (allocated host bad w).0.error ≡ none
    → Joined host w (allocated host bad w)
allocated-Joined host w true e p = cc
allocated-Joined host w false e p = (host, ground arith, given-IsFresh host w (ground arith), refl)

allocated-same :
    (host : String) (w : World) (bad : Bool) (e : _)
    → (allocated host bad w).0.error ≡ some e
    → (allocated host bad w).1 ≡ w
allocated-same host w true e p = refl
allocated-same host w false e p = cc

pub balancer-IsBalancer : (c : UcloudCluster) → IsBalancer balancer c (λ w. w)
balancer-IsBalancer c = record {
  looked = λ w. refl;
  shown = λ w e. (vserver w, [], refl, refl);
  joined = λ host w e. allocated-Joined host w _ refl e;
  not_joined = λ host w e p. allocated-same host w _ e p;
  left = λ id w e. refl;
  not_left = λ id w e p. cc;
}
