-- ===== src/Manager.antt =====
-- main.go: the flags and the start of the manager. The manager itself, the reconcilers' and the
-- webhooks' registration with it and the profiler's server are code of controller-runtime and of Go.
pub mod Serves
use cluster_api_provider_ucl.Prelude.{
  ℕ, ◌*◌, ℤ, pos, String, Bool, false, none, some, Option, List, [], ◌∷◌, ◌++◌, int_eq,
  if◌then◌else◌,
}
use cluster_api_provider_ucl.Go.{Error, Exec, pure, fail, ◌>>=◌, ◌>>◌}
use cluster_api_provider_ucl.Service.Timer.{minute}

-- The variables that the flags set. `sync_period` is in milliseconds.
pub record Flags : Type 0 where
  pub metrics_addr : String
  pub enable_leader_election : Bool
  pub watch_namespace : String
  pub leader_election_namespace : String
  pub profiler_address : String
  pub ucloud_cluster_concurrency : ℤ
  pub ucloud_machine_concurrency : ℤ
  pub sync_period : ℕ
  pub webhook_port : ℤ
  pub health_addr : String

-- The values without an argument on the command line.
abbrev pub default_flags : Flags
default_flags = record {
  metrics_addr = ":8080";
  enable_leader_election = false;
  watch_namespace = "";
  leader_election_namespace = "";
  profiler_address = "";
  ucloud_cluster_concurrency = pos 10;
  ucloud_machine_concurrency = pos 10;
  sync_period = 10 * minute;
  webhook_port = pos 0;
  health_addr = ":9440";
}

-- `ctrl.Options` without the scheme.
pub record Options : Type 0 where
  pub metrics_bind_address : String
  pub leader_election : Bool
  pub leader_election_id : String
  pub leader_election_namespace : String
  pub sync_period : ℕ
  pub namespace : String
  pub port : ℤ
  pub health_probe_bind_address : String

abbrev pub options : Flags → Options
options f = record {
  metrics_bind_address = f.metrics_addr;
  leader_election = f.enable_leader_election;
  leader_election_id = "controller-leader-election-capg";
  leader_election_namespace = f.leader_election_namespace;
  sync_period = f.sync_period;
  namespace = f.watch_namespace;
  port = f.webhook_port;
  health_probe_bind_address = f.health_addr;
}

-- What `main` asks of controller-runtime. The numbers bound the concurrent reconciles.
pub data Step : Type 0 where
  new_manager : Options → Step
  set_up_machine_reconciler : ℤ → Step
  set_up_cluster_reconciler : ℤ → Step
  set_up_template_webhook : Step
  set_up_machine_webhook : Step
  add_readyz_check : Step
  add_healthz_check : Step
  start : Step

-- The state of the process: the outside world, and the steps taken so far in order.
pub record Process (W : Type 0) : Type 0 where
  pub world : W
  pub taken : List Step

module _ {W : Type 0} (perform : Step → W → Option Error × W) where
  -- `if err := step; err != nil { os.Exit(1) }`: the failure is the exit.
  unfoldable pub attempt : Step → Exec (Process W) Unit
  attempt step s =
      let answer = perform step s.world in
      (elim answer.0 as (λ _. Exec (Process W) Unit) [ none ↦ pure tt | some e ↦ fail e ])
        (record { world = answer.1; taken = s.taken ++ (step ∷ []) })

  unfoldable pub set_up : Flags → Exec (Process W) Unit
  set_up f =
      if int_eq f.webhook_port (pos 0)
      then (do
        attempt (set_up_machine_reconciler f.ucloud_machine_concurrency)
        attempt (set_up_cluster_reconciler f.ucloud_cluster_concurrency))
      else (do attempt set_up_template_webhook; attempt set_up_machine_webhook)

  -- From the creation of the manager to its end, on the parsed flags.
  unfoldable pub main : Flags → Exec (Process W) Unit
  main f = do
    attempt (new_manager (options f))
    set_up f
    attempt add_readyz_check
    attempt add_healthz_check
    attempt start
