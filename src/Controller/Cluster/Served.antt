-- ===== src/Controller/Cluster/Served.antt =====
-- A cluster that is marked as ready has an endpoint, and `reconcile` takes nothing away.
use cluster_api_provider_ucl.Prelude.{
  ◌≡◌, refl, Bool, true, false, ◌⊎◌, inr, is_empty, All, if◌then◌else◌,
}
use cluster_api_provider_ucl.Go.{pure, ◌>>=◌}
use cluster_api_provider_ucl.Go.Keeps.{Keeps, Keeps-pure, Keeps-if, Keeps-bind, Keeps-option}
use cluster_api_provider_ucl.Api.Cluster.{UcloudCluster}
use cluster_api_provider_ucl.Cloud.{
  Environment, delete_vpc, delete_subnet, delete_natgw, delete_ulb, terminate_uhost_instance,
  poweroff_uhost_instance, release_backend, release_eip, unbind_eip, delete_machine,
  delete_capu_cluster, delete_capu_host, delete_business_group,
}
use cluster_api_provider_ucl.Scope.{
  ClusterScope, State, Event, called, posted, with_cluster, update_cluster,
}
use cluster_api_provider_ucl.Service.Emits.{Emits, Keeps-with_cluster, Keeps-update_cluster}
use cluster_api_provider_ucl.Service.Bastion.Emits.{IgnoresHosts}
use cluster_api_provider_ucl.Controller.Finalizers.{retry_after}
use cluster_api_provider_ucl.Controller.Cluster.{
  set_endpoint, announce, publish, reconcile, reconcile_either,
}
use cluster_api_provider_ucl.Controller.Cluster.Emits.{
  any_teardown, Keeps-reconcile_resources, Keeps-reconcile_delete,
}
use cluster_api_provider_ucl.Controller.Cluster.Ready.{HasEndpoint, Anything, All-any}
use cluster_api_provider_ucl.Controller.Cluster.Makes.{
  AllowsMaking, Keeps-announce, Keeps-reconcile,
}

-- Is the event one by which something is taken away?
abbrev pub takes_away : Event → Bool
takes_away (called (delete_vpc r)) = true
takes_away (called (delete_subnet r)) = true
takes_away (called (delete_natgw r)) = true
takes_away (called (delete_ulb r)) = true
takes_away (called (terminate_uhost_instance r)) = true
takes_away (called (poweroff_uhost_instance r)) = true
takes_away (called (release_backend r)) = true
takes_away (called (release_eip r)) = true
takes_away (called (unbind_eip r)) = true
takes_away (called (delete_machine m)) = true
takes_away (posted (delete_business_group r)) = true
takes_away (posted (delete_capu_cluster r)) = true
takes_away (posted (delete_capu_host r)) = true
takes_away _ = false

abbrev pub IsGentle : Event → Type 0
IsGentle e = takes_away e ≡ false

-- A property of events that holds of those that take nothing away allows what `reconcile` sends.
making :
    {I : UcloudCluster → Type 0} {Q : Event → Type 0}
    → ((e : Event) → IsGentle e → Q e)
    → AllowsMaking I Q
making k = record {
  network = record {
    lists_groups = λ r. k _ refl;
    makes_group = λ r. k _ refl;
    reads_vpc = λ r. k _ refl;
    makes_vpc = λ r. k _ refl;
    reads_subnet = λ r. k _ refl;
    makes_subnet = λ r. k _ refl;
    reads_natgw = λ r. k _ refl;
    makes_natgw = λ r. k _ refl;
    reads_firewall = λ r. k _ refl;
    makes_eip = λ r. k _ refl;
    binds_eip = λ r. k _ refl;
    reads_ulb = λ r. k _ refl;
    makes_ulb = λ r. k _ refl;
    makes_vserver = λ r. k _ refl;
  };
  patches = λ c i. k _ refl;
  describes = λ r. k _ refl;
  makes_host = λ r. k _ refl;
  makes_cluster = λ r. k _ refl;
}

module _ (E : Environment) (sc : ClusterScope) where
  -- Without a condition on the object, every branch of `publish` is allowed.
  Keeps-publish : Keeps (Emits (λ c. Unit {0}) IsGentle) (publish E sc)
  unfolding publish
  Keeps-publish = Keeps-with_cluster _ (λ c i.
      Keeps-if (is_empty c.status.network.ulb.eip.eip_addr) _ _ (λ _. Keeps-pure _)
        (λ _. Keeps-bind _ _ (Keeps-update_cluster _ (λ d j. tt)) (λ _.
          Keeps-announce E sc (making (λ e g. g))
            (record { bastion_free = λ b d j. tt; cluster_free = λ id d j. tt }) c
            (λ zones d j. tt))))

  -- On every way out of `reconcile`, an error and a panic included, no call and no action that was
  -- sent deletes, powers off, releases or unbinds anything, if none did before.
  pub reconcile-IsGentle :
      (s : State E.World) → All IsGentle s.events → All IsGentle (reconcile E sc s).1.events
  reconcile-IsGentle s before =
      ((Keeps-reconcile E sc (making (λ e g. g))
          (record { bastion_free = λ b d j. tt; cluster_free = λ id d j. tt })
          (Keeps-reconcile_resources E sc (making {I = λ c. Unit} (λ e g. g)).network
            (record { network_free = λ n c i. tt; group_free = λ g c i. tt }))
          (λ fs c i. tt) Keeps-publish).at
        s (record { object = tt; sent = before })).sent

-- A cluster that is marked as ready has an endpoint.
abbrev pub IsServed : UcloudCluster → Type 0
IsServed c = (c.status.ready ≡ false) ⊎ HasEndpoint c

module _ (E : Environment) (sc : ClusterScope) where
  abbrev Served : State E.World → Type 0
  Served = Emits IsServed Anything

  endpoint_hosts : IgnoresHosts HasEndpoint
  endpoint_hosts = record { bastion_free = λ b c i. i; cluster_free = λ id c i. i }

  published :
      (s : State E.World) (alone : Bool)
      → Served s
      → is_empty s.ucloud_cluster.status.network.ulb.eip.eip_addr ≡ alone
      → IsServed
          ((if alone
              then pure (retry_after 15)
              else (update_cluster set_endpoint >>= λ _. announce E sc s.ucloud_cluster))
            s).1.ucloud_cluster
  unfolding update_cluster ◌>>=◌
  published s true h e = h.object
  published s false h e =
      inr
        ((Keeps-announce E sc (making (λ _ _. tt)) endpoint_hosts s.ucloud_cluster
            (λ zones d i. i)).at
          _
          (record {
            object = record { host_is = e; port_is = refl };
            sent = All-any s.events;
          })).object

  Keeps-publish-IsServed : Keeps Served (publish E sc)
  unfolding publish with_cluster
  Keeps-publish-IsServed = record {
    at = λ s h. record { object = published s _ h refl; sent = All-any _ };
  }

  Keeps-reconcile_either : Keeps Served (reconcile_either E sc)
  unfolding reconcile_either
  Keeps-reconcile_either = Keeps-with_cluster _ (λ c i.
      Keeps-option c.meta.deletion_timestamp _ _
        (λ _. Keeps-reconcile_delete E sc (any_teardown (λ e n. tt) (λ c i. i)) (λ fs c i. i))
        (Keeps-reconcile E sc (making (λ _ _. tt))
          (record { bastion_free = λ b c i. i; cluster_free = λ id c i. i })
          (Keeps-reconcile_resources E sc (making {I = IsServed} (λ _ _. tt)).network
            (record { network_free = λ n c i. i; group_free = λ g c i. i }))
          (λ fs d j. j) Keeps-publish-IsServed))

  -- `Reconcile` keeps a cluster served, in its normal branch and in its deletion, also where it ends
  -- with an error or a panic: if the object had a control plane endpoint or was not marked as ready
  -- before, the same holds after, so an object that says it is ready has a host and the port 6443.
  pub reconcile_either-IsServed :
      (s : State E.World)
      → IsServed s.ucloud_cluster
      → IsServed (reconcile_either E sc s).1.ucloud_cluster
  reconcile_either-IsServed s i =
      (Keeps-reconcile_either.at s (record { object = i; sent = All-any s.events })).object
