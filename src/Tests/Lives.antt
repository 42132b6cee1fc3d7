-- ===== src/Tests/Lives.antt =====
-- The life of a cluster's object in the concrete world that supplies what it is asked for.
use cluster_api_provider_ucl.Api.Cluster.{UcloudCluster}
use cluster_api_provider_ucl.Controller.Cluster.Remembers.{Remembers}
use cluster_api_provider_ucl.Controller.Cluster.Lifecycle.{
  Stored, untouched, edited, patched, run, run-Sent, Stored-Remembers,
}
use cluster_api_provider_ucl.Tests.Samples.{whole_cluster, cluster_scope}
use cluster_api_provider_ucl.Tests.Supplies.{supplying, partly}

-- After a run on a cluster that has a part of its resources, an edit, and another run.
abbrev once : UcloudCluster
once = (run supplying cluster_scope partly.ucloud_cluster 0).ucloud_cluster

abbrev changed : UcloudCluster
changed = record once { meta = whole_cluster.meta; spec = whole_cluster.spec }

abbrev twice : UcloudCluster
twice = (run supplying cluster_scope changed 7).ucloud_cluster

twice-Stored : Stored supplying partly.ucloud_cluster twice
twice-Stored =
    patched changed twice cluster_scope 7
      (edited once whole_cluster.meta whole_cluster.spec (
        patched partly.ucloud_cluster once cluster_scope 0 untouched
          (run-Sent supplying cluster_scope partly.ucloud_cluster 0)))
      (run-Sent supplying cluster_scope changed 7)

Stored-Remembers_example : Remembers partly.ucloud_cluster twice
Stored-Remembers_example = Stored-Remembers supplying partly.ucloud_cluster twice twice-Stored
