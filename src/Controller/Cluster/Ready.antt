-- ===== src/Controller/Cluster/Ready.antt =====
-- What holds of the object of a cluster that `reconcile` has made ready.
use cluster_api_provider_ucl.Prelude.{
  ◌≢◌, arith, ◌∙◌, lookup-insert, lookup-insert-kept, lookup, if◌then◌else◌, [], ◌∷◌, ap, ◌≡◌, refl,
  pos, Bool, true, false, is_empty, All, List, String, Option, none, some,
}
use cluster_api_provider_ucl.Go.{fail, errorf, ok, pure, ◌>>=◌}
use cluster_api_provider_ucl.Go.Keeps.{Keeps}
use cluster_api_provider_ucl.Api.Cluster.{UcloudCluster, FailureDomainSpec, ApiEndpoint}
use cluster_api_provider_ucl.Defaults.{region_zones}
use cluster_api_provider_ucl.Go.Leads.{
  Leads, Leads-pure, Leads-bind, Leads-Keeps, Leads-wrapping, ok-injective, Leads-any,
}
use cluster_api_provider_ucl.Cloud.{Environment}
use cluster_api_provider_ucl.Scope.{ClusterScope, State, Event, Op, with_cluster, update_cluster}
use cluster_api_provider_ucl.Service.Emits.{Emits}
use cluster_api_provider_ucl.Service.Request.{get_zones}
use cluster_api_provider_ucl.Service.Bastion.{create_bastion_instance}
use cluster_api_provider_ucl.Service.Capu.{create_capu_cluster_for}
use cluster_api_provider_ucl.Service.Bastion.Emits.{
  IgnoresHosts, Keeps-create_bastion_instance, Keeps-create_capu_cluster_for,
}
use cluster_api_provider_ucl.Controller.Finalizers.{CtrlResult, done, retry_after}
use cluster_api_provider_ucl.Controller.Cluster.{
  set_endpoint, set_ready, domains_of, announce, step, publish, reconcile,
}
use cluster_api_provider_ucl.Controller.Cluster.Emits.{Keeps-step}

-- The API servers can be reached at the endpoint.
pub record IsEndpoint (e : ApiEndpoint) : Type 0 where
  pub host_is : is_empty e.host ≡ false
  pub port_is : e.port ≡ pos 6443

-- The spec has the endpoint by which the other providers reach the API servers.
abbrev pub HasEndpoint : UcloudCluster → Type 0
HasEndpoint c = IsEndpoint c.spec.control_plane_endpoint

abbrev zone_domain : FailureDomainSpec
zone_domain = record { control_plane = true }

-- Every zone of the region is a failure domain.
abbrev HasZones : List String → UcloudCluster → Type 0
HasZones zones c = All (λ zone. lookup zone c.status.failure_domains ≡ some zone_domain) zones

-- What the Cluster API asks of an infrastructure cluster that is ready.
pub record IsReady (c : UcloudCluster) : Type 0 where
  pub ready_is : c.status.ready ≡ true
  pub served : HasEndpoint c
  pub zones : List String
  pub zones_are : region_zones c.spec.region ≡ some zones
  pub domains : HasZones zones c

domains_of-HasZones :
    (zone : String) (zones : List String) (wanted : List String)
    → All (λ z. lookup z (domains_of zones) ≡ some zone_domain) wanted
    → All (λ z. lookup z (domains_of (zone ∷ zones)) ≡ some zone_domain) wanted
domains_of-HasZones zone zones [] h = tt
domains_of-HasZones zone zones (z ∷ zs) h = (
  lookup-insert-kept z zone zone_domain (domains_of zones) h.0,
  domains_of-HasZones zone zones zs h.1,
)

has_zones : (zones : List String) → All (λ z. lookup z (domains_of zones) ≡ some zone_domain) zones
has_zones [] = tt
has_zones (zone ∷ zones) = (
  lookup-insert zone zone_domain (domains_of zones),
  domains_of-HasZones zone zones zones (has_zones zones),
)

abbrev pub Anything : Event → Type 0
Anything _ = Unit {0}

IsReady-hosts : IgnoresHosts IsReady
IsReady-hosts = record {
  bastion_free = λ b c i. record {
    ready_is = i.ready_is;
    served = i.served;
    zones = i.zones;
    zones_are = i.zones_are;
    domains = i.domains;
  };
  cluster_free = λ id c i. record {
    ready_is = i.ready_is;
    served = i.served;
    zones = i.zones;
    zones_are = i.zones_are;
    domains = i.domains;
  };
}

pub All-any : (xs : List Event) → All Anything xs
All-any [] = tt
All-any (x ∷ xs) = (tt, All-any xs)

not_done : retry_after 15 ≢ done
not_done p = omega (arith, ap CtrlResult.requeue_after p)

module _ (E : Environment) (sc : ClusterScope) {I : UcloudCluster → Type 0}
    (ignores : IgnoresHosts I) where
  -- The last two steps.
  Keeps-hosts_made :
      (format : String) → Keeps (Emits I Anything) (step E format (create_bastion_instance E sc))
  Keeps-hosts_made format =
      Keeps-step E _ _ (Keeps-create_bastion_instance E sc (λ r. tt) ignores (λ r. tt))

  Keeps-cluster_made :
      (format : String) → Keeps (Emits I Anything) (step E format (create_capu_cluster_for E sc))
  Keeps-cluster_made format =
      Keeps-step E _ _ (Keeps-create_capu_cluster_for E sc (λ r. tt) ignores (λ r. tt))

module _ (E : Environment) (sc : ClusterScope) where
  abbrev Served : State E.World → Type 0
  Served = Emits HasEndpoint Anything

  -- The zones are those of the region, and nothing is written.
  abbrev Known : List String → State E.World → Type 0
  Known zones s = Served s × (region_zones s.ucloud_cluster.spec.region ≡ some zones)

  zones-Known :
      (s : State E.World) (zones : List String) (region : String) (o : Option (List String))
      → Served s
      → region_zones s.ucloud_cluster.spec.region ≡ o
      → ((elim o as (λ _. Op E (List String)) [
        | none ↦ fail (errorf "can not find region %q" (region ∷ []))
        | some zs ↦ pure zs
      ])
          s).0
        ≡ ok zones
      → Known zones
          ((elim o as (λ _. Op E (List String)) [
            | none ↦ fail (errorf "can not find region %q" (region ∷ []))
            | some zs ↦ pure zs
          ])
            s).1
  unfolding ◌>>=◌
  zones-Known s zones region none h e p = cc
  zones-Known s zones region (some zs) h e p = (h, e ∙ ap some (ok-injective p))

  Leads-get_zones : Leads Served (get_zones E) Known
  unfolding get_zones with_cluster
  Leads-get_zones = record {
    at = λ s zones h p. zones-Known s zones _ (region_zones s.ucloud_cluster.spec.region) h refl p;
  }

  Leads-set_ready :
      (zones : List String)
      → Leads (Known zones) (update_cluster (set_ready zones)) (λ _. Emits IsReady Anything)
  unfolding update_cluster
  Leads-set_ready zones = record {
    at = λ s a h p. record {
      object = record {
        ready_is = refl;
        served = h.0.object;
        zones = zones;
        zones_are = h.1;
        domains = has_zones zones;
      };
      sent = h.0.sent;
    };
  }

  Leads-announce :
      (c : UcloudCluster) → Leads Served (announce E sc c) (λ _. Emits IsReady Anything)
  unfolding announce
  Leads-announce c = Leads-bind _ _ (Leads-wrapping _ _ _ Leads-get_zones) (λ zones.
      Leads-bind _ _ (Leads-set_ready zones) (λ _.
        Leads-bind _ _ (Leads-Keeps _ (Keeps-hosts_made E sc IsReady-hosts _)) (λ _.
          Leads-bind _ _ (Leads-Keeps _ (Keeps-cluster_made E sc IsReady-hosts _))
            (λ _. Leads-pure done (λ s h. h)))))

  -- Where the address of the load balancer is known, the endpoint is written first.
  announced :
      (s : State E.World) (alone : Bool) (r : CtrlResult)
      → is_empty s.ucloud_cluster.status.network.ulb.eip.eip_addr ≡ alone
      → ((if alone
            then pure (retry_after 15)
            else (update_cluster set_endpoint >>= λ _. announce E sc s.ucloud_cluster))
          s).0
        ≡ ok r
      → r ≡ done
      → IsReady
          ((if alone
              then pure (retry_after 15)
              else (update_cluster set_endpoint >>= λ _. announce E sc s.ucloud_cluster))
            s).1.ucloud_cluster
  unfolding update_cluster ◌>>=◌
  announced s true r e p q = absurd (not_done (ok-injective p ∙ q))
  announced s false r e p q =
      ((Leads-announce s.ucloud_cluster).at _ r
        (record { object = record { host_is = e; port_is = refl }; sent = All-any s.events })
        p).object

  Leads-publish : Leads (λ _. Unit {0}) (publish E sc) (λ r s. r ≡ done → IsReady s.ucloud_cluster)
  unfolding publish with_cluster
  Leads-publish = record { at = λ s r h p. announced s _ r refl p }

  -- Whatever the cluster's object was before, when `reconcile` returns without an error and without
  -- asking for a requeue, the object is marked as ready, it has a control plane endpoint with a
  -- host and the port 6443, and every zone of the cluster's region is one of its failure domains.
  pub reconcile-IsReady :
      (s : State E.World)
      → (reconcile E sc s).0 ≡ ok done
      → IsReady (reconcile E sc s).1.ucloud_cluster
  unfolding reconcile
  reconcile-IsReady s p =
      (Leads-bind _ _ (Leads-any _) (λ _.
          Leads-bind _ _ (Leads-any _) (λ _. Leads-bind _ _ (Leads-any _) (λ _. Leads-publish)))).at
        s done tt p refl
