-- ===== src/Tests/Pauses.antt =====
-- A request for a machine of a paused cluster.
use cluster_api_provider_ucl.Prelude.{true, none, refl, []}
use cluster_api_provider_ucl.Cloud.{Environment}
use cluster_api_provider_ucl.Scope.Cluster.{Defaults}
use cluster_api_provider_ucl.Controller.Pause.{is_paused}
use cluster_api_provider_ucl.Controller.Machine.Request.{reconcile_request}
use cluster_api_provider_ucl.Controller.Machine.Request.Bars.{
  Barred, paused, LeftAlone, reconcile_request-LeftAlone,
}
use cluster_api_provider_ucl.Tests.Samples.{new_cluster, machine, machine_at}
use cluster_api_provider_ucl.Tests.World.{environment}

abbrev pausing : Environment
pausing = record (environment [] []) { is_paused = λ c m. true }

abbrev defaults : Defaults
defaults = record {
  default_config = record { base_url = "https://api.ucloud.cn"; timeout = 30; user_agent = "" };
  environ = λ key. "";
}

pausing-Barred : Barred pausing "default" "m0" (machine_at new_cluster 0)
unfolding is_paused
pausing-Barred =
    paused machine (record { object_read = refl; owner_read = refl; owner_is = refl }) refl refl

reconcile_request-LeftAlone_example : LeftAlone pausing "default" "m0" (machine_at new_cluster 0) (
    reconcile_request pausing defaults
      (λ c. none)
      (λ m. none)
      "default"
      "m0"
      (machine_at new_cluster 0))
reconcile_request-LeftAlone_example =
    reconcile_request-LeftAlone pausing "default" "m0" (machine_at new_cluster 0) defaults
      (λ c. none) (λ m. none) pausing-Barred tt
