-- ===== src/Service/Group.antt =====
-- cloud/services/ugroup.go: the business group of a cluster, which carries the tag of every resource
-- that the provider makes. The cleaning of its resources is in `Service.Terminate`.
pub mod Emits
use cluster_api_provider_ucl.Prelude.{
  String, ◌<>◌, Option, none, some, List, [], ◌∷◌, is_empty, not, if◌then◌else◌, ◌==◌, find_first,
  Bool,
}
use cluster_api_provider_ucl.Go.{pure, wrapping, ◌>>=◌, ◌>>◌}
use cluster_api_provider_ucl.Api.Cluster.{UcloudCluster}
use cluster_api_provider_ucl.Cloud.{
  Environment, Request, Response, no_response, list_business_group, create_business_group,
  delete_business_group, BusinessGroupInfo,
}
use cluster_api_provider_ucl.Defaults.{cluster_api_uuid_namespace}
use cluster_api_provider_ucl.Scope.{ClusterScope, Op, with_cluster, update_cluster}
use cluster_api_provider_ucl.Scope.Cluster
use cluster_api_provider_ucl.Service.Request.{do_request, common_base}

module _ (E : Environment) (sc : ClusterScope) where
  -- The text that is hashed: project, region, namespace, name, version and creation time.
  abbrev pub group_seed : UcloudCluster → String
  group_seed c =
      Cluster.project_id c
      <> "-"
      <> Cluster.region c
      <> "-"
      <> Cluster.namespace sc
      <> "-"
      <> c.meta.name
      <> "-"
      <> c.spec.version
      <> "-"
      <> sc.cluster.meta.creation_timestamp

  abbrev pub group_name_for : UcloudCluster → String
  group_name_for c = "capu-" <> E.uuid_sha1 cluster_api_uuid_namespace (group_seed c)

  abbrev pub group_matches : UcloudCluster → BusinessGroupInfo → Bool
  group_matches c g = g.business_name == group_name_for c

  new_group : UcloudCluster → Op E BusinessGroupInfo
  new_group c = do
    base ← common_base E "CreateBusinessGroup" c
    let req =
        create_business_group (record { base = base; business_name = some (group_name_for c) })
    res ← wrapping "create business group failed" [] (do_request E sc req (no_response req))
    pure (record { business_id = res.business_id; business_name = res.business_name })

  find_or_create_group : UcloudCluster → Op E BusinessGroupInfo
  unfolding new_group
  find_or_create_group c = do
    base ← common_base E "ListBusinessGroup" c
    let req = list_business_group (record { base = base })
    res ← wrapping "list business group failed" [] (do_request E sc req (no_response req))
    elim (find_first (group_matches c) res.infos) [ some g ↦ pure g | none ↦ new_group c ]

  abbrev record_group : BusinessGroupInfo → UcloudCluster → UcloudCluster
  record_group g c = record c {
    status = record (c.status) {
      group = record (c.status.group) { group_id = g.business_id; group_name = g.business_name };
    };
  }

  establish_group : UcloudCluster → Op E Unit
  unfolding find_or_create_group
  establish_group c = do g ← find_or_create_group c; update_cluster (record_group g)

  unfoldable pub reconcile_ugroup : Op E Unit
  unfolding establish_group
  reconcile_ugroup =
      with_cluster λ c. if is_empty c.status.group.group_id then establish_group c else pure tt

  drop_group : UcloudCluster → Op E Unit
  drop_group c = do
    base ← common_base E "DeleteBusinessGroup" c
    let req =
        delete_business_group (record { base = base; business_id = some c.status.group.group_id })
    wrapping "delete business group failed" [] (do_request E sc req (no_response req))
    pure tt

  unfoldable pub delete_group : Op E Unit
  unfolding drop_group
  delete_group =
      with_cluster λ c. if is_empty c.status.group.group_id then pure tt else drop_group c
