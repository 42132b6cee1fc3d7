-- ===== src/Service/Backend/Balancer.antt =====
-- What UCloud's load balancer promises of its backends, and what it means that a method refines an
-- operation on sets of hosts.
use mathlib.Core.Path.{subst}
use cluster_api_provider_ucl.Prelude.{
  ◌≡◌, ◌≢◌, sym, ap, String, Bool, true, false, not, ◌&&◌, ◌||◌, none, some, List, [], ◌∷◌, ◌++◌,
  is_empty, ◌==◌, arith, eq_iff,
}
use cluster_api_provider_ucl.Go.{Error, Result, ok, err, panic}
use cluster_api_provider_ucl.Api.Cluster.{UcloudCluster}
use cluster_api_provider_ucl.Cloud.{Environment, UlbBackendSet, UlbVserverSet}
use cluster_api_provider_ucl.Scope.{State}
use cluster_api_provider_ucl.Service.Backend.{describe_call, allocate_call, release_call}
use cluster_api_provider_ucl.Service.Backend.Keyed.{is_served, without, IsKeyed, IsFresh}

-- The backends that the world holds for the virtual server of `c`, and how the three calls see and
-- change them. A call that fails changes nothing.
pub record IsBalancer (E : Environment) (c : UcloudCluster) (view : E.World → List UlbBackendSet)
    : Type 0 where
  pub looked : (w : E.World) → view (E.invoke (describe_call c) w).1 ≡ view w
  pub shown :
      (w : E.World)
      → (E.invoke (describe_call c) w).0.error ≡ none
      → (v : UlbVserverSet) × (vs : List UlbVserverSet) × ((E.invoke (describe_call c) w).0.body
          ≡ v ∷ vs)
        × (v.backend_set ≡ view w)
  pub joined :
      (host : String) (w : E.World)
      → (E.invoke (allocate_call c host) w).0.error ≡ none
      → (id : String) × (is_empty id ≡ false)
        × IsFresh id (view w)
        × (view (E.invoke (allocate_call c host) w).1
            ≡ view w ++ (record { backend_id = id; resource_id = host } ∷ []))
  pub not_joined :
      (host : String) (w : E.World) (e : Error)
      → (E.invoke (allocate_call c host) w).0.error ≡ some e
      → view (E.invoke (allocate_call c host) w).1 ≡ view w
  pub left :
      (id : String) (w : E.World)
      → (E.invoke (release_call c id) w).0.error ≡ none
      → view (E.invoke (release_call c id) w).1 ≡ without id (view w)
  pub not_left :
      (id : String) (w : E.World) (e : Error)
      → (E.invoke (release_call c id) w).0.error ≡ some e
      → view (E.invoke (release_call c id) w).1 ≡ view w

-- The sets of hosts, and the two operations on them.
abbrev pub Hosts : Type 0
Hosts = String → Bool

abbrev pub join : String → Hosts → Hosts
join host hosts h = h == host || hosts h

abbrev pub leave_out : String → Hosts → Hosts
leave_out host hosts h = not (h == host) && hosts h

pub swapped : (s t : String) → (s == t) ≡ (t == s)
swapped s t = ground (arith, eq_iff s t, eq_iff t s)

pub already : (host h : String) (hosts : Hosts) → hosts host ≡ true → hosts h ≡ join host hosts h
already host h hosts p = ground (arith, eq_iff h host)

pub not_there :
    (host h : String) (hosts : Hosts) → hosts host ≡ false → hosts h ≡ leave_out host hosts h
not_there host h hosts p = ground (arith, eq_iff h host)

module _ (E : Environment) (view : E.World → List UlbBackendSet) where
  -- From the backends `before`, a method that succeeds has done `op` to the set of hosts, one that
  -- fails has left the set alone, and neither panics or enters a host twice.
  pub record Implements (op : Hosts → Hosts) (before : List UlbBackendSet)
      (end : Result (Unit {0}) × State E.World) : Type 0 where
    pub on_ok :
        end.0 ≡ ok tt → (h : String) → is_served (view end.1.world) h ≡ op (is_served before) h
    pub on_err :
        (e : Error)
        → end.0 ≡ err e
        → (h : String) → is_served (view end.1.world) h ≡ is_served before h
    pub no_panic : (why : String) → end.0 ≢ panic why
    pub keyed : IsKeyed (view end.1.world)

  pub failed :
      {op : Hosts → Hosts} (before : List UlbBackendSet) (e : Error) (s : State E.World)
      → IsKeyed before
      → view s.world ≡ before
      → Implements op before (err e, s)
  failed before e s keyed same = record {
    on_ok = λ p. cc;
    on_err = λ x p h. ap (λ l. is_served l h) same;
    no_panic = λ why p. cc;
    keyed = subst IsKeyed (sym same) keyed;
  }

  pub succeeded :
      {op : Hosts → Hosts} (before : List UlbBackendSet) (s : State E.World)
      → IsKeyed (view s.world)
      → ((h : String) → is_served (view s.world) h ≡ op (is_served before) h)
      → Implements op before (ok tt, s)
  succeeded before s keyed same = record {
    on_ok = λ p. same;
    on_err = λ x p. cc;
    no_panic = λ why p. cc;
    keyed = keyed;
  }
