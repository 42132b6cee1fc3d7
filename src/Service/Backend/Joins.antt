-- ===== src/Service/Backend/Joins.antt =====
-- The real servers as a set of hosts: `AddRealServer` puts a host into it, `DelRealServer` takes one
-- out.
use mathlib.Core.Path.{subst}
use cluster_api_provider_ucl.Prelude.{
  ◌≡◌, refl, sym, ◌∙◌, ap, String, false, ◌||◌, Option-cases, inl, inr, Option, none, some, List,
  [], ◌∷◌, find_first,
}
use cluster_api_provider_ucl.Go.{Error, Result, ok, err, wrap, pure, ◌>>=◌}
use cluster_api_provider_ucl.Api.Cluster.{UcloudCluster}
use cluster_api_provider_ucl.Cloud.{Environment, UlbBackendSet}
use cluster_api_provider_ucl.Scope.{State, Op, with_cluster}
use cluster_api_provider_ucl.Scope.Calls.{reply_to, after_call, request-ok, request-err}
use cluster_api_provider_ucl.Service.Backend.{
  serves, describe_call, allocate_call, release_call, vserver_id_of, described_vserver, attach,
  detach, add_real_server, del_real_server,
}
use cluster_api_provider_ucl.Service.Backend.Keyed.{
  is_served, IsKeyed, is_served-append, found-is_served, missing-is_served, without-IsKeyed,
  append-IsKeyed, is_served-without, found-id,
}
use cluster_api_provider_ucl.Service.Backend.Balancer.{
  IsBalancer, Hosts, join, leave_out, Implements, failed, succeeded, already, not_there, swapped,
}

module _ (E : Environment) (view : E.World → List UlbBackendSet) where
  module _ (c : UcloudCluster) (laws : IsBalancer E c view) (s : State E.World)
      (keyed : IsKeyed (view s.world)) where
    described-ok :
        (reply_to E (describe_call c) s).error ≡ none
        → described_vserver E c s ≡ (ok (view s.world), after_call E (describe_call c) s)
    unfolding described_vserver ◌>>=◌
    described-ok e =
        let sh = laws.shown s.world e in
        rw (request-ok E (describe_call c) s (λ x. wrap x "describe vserver failed" []) e)
          (rw sh.2 (rw sh.3 refl))

    described-err :
        (e : Error)
        → (reply_to E (describe_call c) s).error ≡ some e
        → described_vserver E c s
          ≡ (err (wrap e "describe vserver failed" []), after_call E (describe_call c) s)
    unfolding described_vserver ◌>>=◌
    described-err e p =
        rw (request-err E (describe_call c) s (λ x. wrap x "describe vserver failed" []) e p) refl

    attach-join :
        (host : String)
        → is_served (view s.world) host ≡ false
        → Implements E view (join host) (view s.world) (attach E c host s)
    unfolding attach
    attach-join host other = elim (Option-cases (reply_to E (allocate_call c host) s).error) [
      | inl e ↦
          let j = laws.joined host s.world e in
          rw
            (request-ok E (allocate_call c host) s
              (λ x. wrap x "add resource %s to vserver %s failed" (host ∷ vserver_id_of c ∷ [])) e)
            (succeeded E view (view s.world) (after_call E (allocate_call c host) s)
              (subst IsKeyed (sym j.3) (append-IsKeyed _ (view s.world) j.1 j.2 other keyed))
              (λ h.
                ap (λ l. is_served l h) j.3
                ∙ is_served-append (view s.world) _ h
                ∙ ap (λ t. t || is_served (view s.world) h) (swapped host h)))
      | inr (e, p) ↦
          rw
            (request-err E (allocate_call c host) s
              (λ x. wrap x "add resource %s to vserver %s failed" (host ∷ vserver_id_of c ∷ [])) e
              p)
            (failed E view (view s.world) _ (after_call E (allocate_call c host) s) keyed
              (laws.not_joined host s.world e p))
    ]

    detach-leave :
        (host : String) (b : UlbBackendSet)
        → find_first (serves host) (view s.world) ≡ some b
        → Implements E view (leave_out host) (view s.world) (detach E c host b.backend_id s)
    unfolding detach
    detach-leave host b p =
        rw (found-id (view s.world) b host keyed p)
          (elim (Option-cases (reply_to E (release_call c b.backend_id) s).error) [
            | inl e ↦
                let l = laws.left b.backend_id s.world e in
                rw
                  (request-ok E (release_call c b.backend_id) s
                    (λ x. wrap x "del realserver %s failed" (host ∷ [])) e)
                  (succeeded E view (view s.world) (after_call E (release_call c b.backend_id) s)
                    (subst IsKeyed (sym l) (without-IsKeyed b.backend_id (view s.world) keyed))
                    (λ h.
                      ap (λ m. is_served m h) l
                      ∙ is_served-without host (view s.world) b h keyed p))
            | inr (e, q) ↦
                rw
                  (request-err E (release_call c b.backend_id) s
                    (λ x. wrap x "del realserver %s failed" (host ∷ [])) e q)
                  (failed E view (view s.world) _ (after_call E (release_call c b.backend_id) s)
                    keyed (laws.not_left b.backend_id s.world e q))
          ])

  module _ (s : State E.World) (laws : IsBalancer E s.ucloud_cluster view)
      (keyed : IsKeyed (view s.world)) where
    abbrev looked_at : State E.World
    looked_at = after_call E (describe_call s.ucloud_cluster) s

    same_view : view looked_at.world ≡ view s.world
    same_view = laws.looked s.world

    IsKeyed-still : IsKeyed (view looked_at.world)
    IsKeyed-still = subst IsKeyed (sym same_view) keyed

    -- The list is the one that was described.
    from_here :
        {op : Hosts → Hosts} {end : Result (Unit {0}) × State E.World}
        → Implements E view op (view looked_at.world) end
        → Implements E view op (view s.world) end
    from_here {op} {end} i = subst (λ bs. Implements E view op bs end) same_view i

    added :
        (host : String) (o : Option UlbBackendSet)
        → find_first (serves host) (view s.world) ≡ o
        → Implements E view (join host) (view s.world) (
            (elim o as (λ _. Op E Unit) [
              | some _ ↦ pure tt
              | none ↦ attach E s.ucloud_cluster host
            ])
              looked_at)
    unfolding ◌>>=◌
    added host (some b) p = succeeded E view (view s.world) looked_at IsKeyed-still (λ h.
        ap (λ l. is_served l h) same_view
        ∙ already host h (is_served (view s.world)) (found-is_served (view s.world) b host p))
    added host none p = from_here (
        attach-join s.ucloud_cluster laws looked_at IsKeyed-still host
          (ap (λ l. is_served l host) same_view ∙ missing-is_served (view s.world) host p))

    taken :
        (host : String) (o : Option UlbBackendSet)
        → find_first (serves host) (view s.world) ≡ o
        → Implements E view (leave_out host) (view s.world) (
            (elim o as (λ _. Op E Unit) [
              | some b ↦ detach E s.ucloud_cluster host b.backend_id
              | none ↦ detach E s.ucloud_cluster host ""
            ])
              looked_at)
    unfolding detach ◌>>=◌
    taken host (some b) p = from_here (
        detach-leave s.ucloud_cluster laws looked_at IsKeyed-still host b
          (ap (λ l. find_first (serves host) l) same_view ∙ p))
    taken host none p = succeeded E view (view s.world) looked_at IsKeyed-still (λ h.
        ap (λ l. is_served l h) same_view
        ∙ not_there host h (is_served (view s.world)) (missing-is_served (view s.world) host p))

    -- Let UCloud hold a list of backends for the cluster's virtual server as the laws say, in which
    -- no host and no id is twice. Then `AddRealServer` refines the insertion into a set: where it
    -- succeeds, the hosts behind the balancer are those before and the given one, where it fails they
    -- are those before; it does not panic, and no host and no id is twice afterwards.
    pub add_real_server-join :
        (host : String) → Implements E view (join host) (view s.world) (add_real_server E host s)
    unfolding add_real_server with_cluster ◌>>=◌
    add_real_server-join host =
        elim (Option-cases (reply_to E (describe_call s.ucloud_cluster) s).error) [
          | inl e ↦
              rw (described-ok s.ucloud_cluster laws s keyed e)
                (added host (find_first (serves host) (view s.world)) refl)
          | inr (e, p) ↦
              rw (described-err s.ucloud_cluster laws s keyed e p)
                (failed E view (view s.world) _ looked_at keyed same_view)
        ]

    -- Under the same conditions `DelRealServer` refines the removal from a set: where it succeeds, the
    -- hosts behind the balancer are those before without the given one, where it fails they are those
    -- before; it does not panic, and no host and no id is twice afterwards.
    pub del_real_server-leave_out :
        (host : String)
        → Implements E view (leave_out host) (view s.world) (del_real_server E host s)
    unfolding del_real_server with_cluster ◌>>=◌
    del_real_server-leave_out host =
        elim (Option-cases (reply_to E (describe_call s.ucloud_cluster) s).error) [
          | inl e ↦
              rw (described-ok s.ucloud_cluster laws s keyed e)
                (taken host (find_first (serves host) (view s.world)) refl)
          | inr (e, p) ↦
              rw (described-err s.ucloud_cluster laws s keyed e p)
                (failed E view (view s.world) _ looked_at keyed same_view)
        ]
