-- ===== src/Service/Backend.antt =====
-- cloud/services/ulb.go: the real servers behind the load balancer's virtual server.
pub mod Keyed
pub mod Balancer
pub mod Joins
use cluster_api_provider_ucl.Prelude.{
  pos, String, Bool, none, some, List, [], ◌∷◌, is_empty, if◌then◌else◌, ◌==◌, find_first,
}
use cluster_api_provider_ucl.Go.{errorf, wrap, pure, fail, ◌>>=◌}
use cluster_api_provider_ucl.Api.Cluster.{UcloudCluster}
use cluster_api_provider_ucl.Cloud.{
  Environment, Call, UlbBackendSet, describe_vserver, allocate_backend, release_backend,
}
use cluster_api_provider_ucl.Scope.{Op, request, with_cluster}
use cluster_api_provider_ucl.Scope.Cluster

abbrev pub serves : String → UlbBackendSet → Bool
serves host_id backend = backend.resource_id == host_id

abbrev ulb_id_of : UcloudCluster → String
ulb_id_of c = c.status.network.ulb.load_balancer_id

abbrev pub vserver_id_of : UcloudCluster → String
vserver_id_of c = c.status.network.ulb.vserver_id

abbrev pub describe_call : UcloudCluster → Call
describe_call c = describe_vserver (record {
  region = Cluster.region c;
  project_id = Cluster.project_id c;
  ulb_id = ulb_id_of c;
  vserver_id = vserver_id_of c;
})

abbrev pub allocate_call : UcloudCluster → String → Call
allocate_call c host_id = allocate_backend (record {
  region = Cluster.region c;
  project_id = Cluster.project_id c;
  ulb_id = ulb_id_of c;
  vserver_id = vserver_id_of c;
  resource_type = "UHost";
  resource_id = host_id;
  port = pos 6443;
})

abbrev pub release_call : UcloudCluster → String → Call
release_call c backend_id = release_backend (record {
  region = Cluster.region c;
  project_id = Cluster.project_id c;
  ulb_id = ulb_id_of c;
  backend_id = backend_id;
})

module _ (E : Environment) where
  -- The start of both methods. The error prints a pointer to the id.
  unfoldable pub described_vserver : UcloudCluster → Op E (List UlbBackendSet)
  described_vserver c = do
    vservers ← request E (λ e. wrap e "describe vserver failed" []) (describe_call c)
    elim vservers [
      | [] ↦ fail (errorf "vserver %s not exist" (E.format_pointer (vserver_id_of c) ∷ []))
      | v ∷ _ ↦ pure v.backend_set
    ]

  unfoldable pub attach : UcloudCluster → String → Op E Unit
  attach c host_id =
      request E
        (λ e. wrap e "add resource %s to vserver %s failed" (host_id ∷ vserver_id_of c ∷ []))
        (allocate_call c host_id)

  unfoldable pub add_real_server : String → Op E Unit
  unfolding described_vserver attach
  add_real_server host_id = with_cluster λ c. do
    backends ← described_vserver c
    elim (find_first (serves host_id) backends) [ some _ ↦ pure tt | none ↦ attach c host_id ]

  unfoldable pub detach : UcloudCluster → String → String → Op E Unit
  detach c host_id backend_id =
      if is_empty backend_id
      then pure tt
      else request E (λ e. wrap e "del realserver %s failed" (host_id ∷ []))
          (release_call c backend_id)

  unfoldable pub del_real_server : String → Op E Unit
  unfolding described_vserver detach
  del_real_server host_id = with_cluster λ c. do
    backends ← described_vserver c
    elim (find_first (serves host_id) backends) [
      | some b ↦ detach c host_id b.backend_id
      | none ↦ detach c host_id ""
    ]
