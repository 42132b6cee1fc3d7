-- ===== src/Service/Instance.antt =====
-- cloud/services/uhost.go: `InstanceIfExists`, `CreateInstance` and `getImageId`.
pub mod Running
pub mod Succeeds
use cluster_api_provider_ucl.Prelude.{
  ℕ, ◌*◌, ℤ, pos, String, ◌<>◌, Bool, Option, none, some, List, [], ◌∷◌, is_empty, int_eq, length,
  get_elem?, inl, inr, ◌⊎◌, if◌then◌else◌,
}
use cluster_api_provider_ucl.Prelude.Text.{replace_all}
use cluster_api_provider_ucl.Go.{
  Error, errorf, wrap, Result, ok, err, panic, pure, fail, crash, wrapping, ◌>>=◌, ◌>>◌,
}
use cluster_api_provider_ucl.Api.Cluster.{UcloudCluster}
use cluster_api_provider_ucl.Api.Machine.{UcloudMachine}
use cluster_api_provider_ucl.Cloud.{
  Environment, Credential, UhostInstanceSet, UhostDisk, CreateUhostInstanceRequest,
  DescribeUhostInstanceRequest, describe_uhost_instance, create_uhost_instance,
}
use cluster_api_provider_ucl.Defaults.{
  default_uhost_cpu, default_uhost_memory, default_uhost_root_disk_size,
  default_uhost_data_disk_size, region_zones, region_image,
}
use cluster_api_provider_ucl.Scope.{ClusterScope, Op, MachineOp, request, with_cluster, on_cluster}
use cluster_api_provider_ucl.Scope.Cluster
use cluster_api_provider_ucl.Scope.Machine
use cluster_api_provider_ucl.Scope.Machine.{MachineScope}
use cluster_api_provider_ucl.Service.Call.{first}
use cluster_api_provider_ucl.Service.Timer.{minute, second, new_timer}
use cluster_api_provider_ucl.Service.Wait.{Loop, state_is, now_is, wait_for}

-- `&(hosts.UHostSet[0])`, or nil for no host.
abbrev head_host : List UhostInstanceSet → Option UhostInstanceSet
head_host [] = none
head_host (h ∷ _) = some h

abbrev head_id : List UhostInstanceSet → String
head_id [] = ""
head_id (h ∷ _) = h.uhost_id

module _ (E : Environment) where
  look_for : UcloudMachine → String → UcloudCluster → Op E (Option UhostInstanceSet)
  look_for m id c = do
    hosts ←
        request E (λ e. wrap e "failed to describe instance: %s" (id ∷ []))
          (describe_uhost_instance (record {
            region = Cluster.region c;
            project_id = Cluster.project_id c;
            zone = some (Machine.get_zone m);
            uhost_ids = id ∷ [];
            tag = Cluster.group_name c;
            subnet_id = none;
          }))
    pure (head_host hosts)

  unfoldable pub look_for_id : UcloudMachine → Option String → Op E (Option UhostInstanceSet)
  unfolding look_for
  look_for_id m none = pure none
  look_for_id m (some id) = with_cluster (look_for m id)

  unfoldable pub instance_if_exists : MachineOp E (Option UhostInstanceSet)
  unfolding look_for_id
  instance_if_exists s =
      on_cluster E (look_for_id s.ucloud_machine (Machine.get_instance_id E s.ucloud_machine)) s

  draw : ℕ → Op E ℕ
  draw n s = (ok (E.intn n s.world).0, record s { world = (E.intn n s.world).1 })

  nth : List String → ℕ → Op E String
  nth xs i = elim (get_elem? xs i) [ some x ↦ pure x | none ↦ crash "index out of range" ]

  -- The zone that is asked for, or a random one of the region.
  unfoldable pub choose_zone : String → String → Op E String
  unfolding draw nth
  choose_zone region zone =
      if is_empty zone
      then elim (region_zones region) [
        | none ↦ fail (errorf "region %s not support" (region ∷ []))
        | some zones ↦ draw (length zones) >>= nth zones
      ]
      else pure zone

-- `getImageId`.
unfoldable pub get_image_id : UcloudMachine → String → String → String
get_image_id m region zone = elim m.spec.image_id [ some id ↦ id | none ↦ region_image region zone ]

abbrev or_default : ℤ → ℤ → ℤ
or_default default n = if int_eq n (pos 0) then default else n

abbrev disk : ℤ → String → UhostDisk
disk size is_boot = record {
  size = size;
  disk_type = "CLOUD_SSD";
  is_boot = is_boot;
  backup_type = "NONE";
}

abbrev instance_name : MachineScope → UcloudMachine → UcloudCluster → String
instance_name ms m c =
    if is_empty m.meta.name
    then c.meta.namespace <> "-" <> c.meta.cluster_name <> "-" <> Machine.role ms
    else c.meta.namespace <> "-" <> m.meta.name

abbrev pub decoded {ℓ} : {A B : Type 0} {C : Type ℓ} → (A → C) → (B → C) → A ⊎ B → C
decoded f g (inl a) = f a
decoded f g (inr b) = g b

module _ (E : Environment) (sc : ClusterScope) where
  -- `base64.StdEncoding.DecodeString` of the password, which must not be empty.
  unfoldable pub password : String → Op E String
  password passwd =
      if is_empty passwd
      then fail (errorf "password is not set" [])
      else decoded pure (λ e. fail (wrap e "sshPassword is not a valid base64 string" []))
          (E.base64_decode passwd)

  -- The bootstrap data with its placeholders replaced, encoded.
  user_data_with : MachineScope → String → String → Op E String
  user_data_with ms bootstrap credential_data = elim ms.machine.version [
    | none ↦ crash "nil pointer dereference"
    | some version ↦ pure (
        E.base64_encode (
          replace_all
            (replace_all (replace_all bootstrap "## template: jinja" "") "UCLOUD_CREDENTIAL"
              (E.base64_encode credential_data))
            "KUBERNETES_VERSION" version))
  ]

  unfoldable pub user_data : MachineScope → String → Op E String
  unfolding user_data_with
  user_data ms bootstrap = elim sc.clients.credential [
    | none ↦ crash "nil pointer dereference"
    | some credential ↦
        decoded (user_data_with ms bootstrap) (λ e. fail (wrap e "marshal credentail failed" []))
          (E.marshal_credential credential)
  ]

  abbrev pub create_request :
      MachineScope
      → UcloudMachine
      → UcloudCluster
      → String
      → String
      → String
      → String
      → CreateUhostInstanceRequest
  create_request ms m c zone image_id pass userdata = record {
    region = Cluster.region c;
    project_id = Cluster.project_id c;
    zone = zone;
    tag = Cluster.group_name c;
    name = instance_name ms m c;
    charge_type = "Month";
    quantity = pos 1;
    vpc_id = c.status.network.vpc.vpc_id;
    subnet_id = c.status.network.subnet.subnet_id;
    image_id = image_id;
    cpu = or_default default_uhost_cpu m.spec.cpu;
    memory = or_default default_uhost_memory m.spec.memory;
    disks =
        disk (or_default default_uhost_root_disk_size m.spec.root_disk_size) "true"
        ∷ disk (or_default default_uhost_data_disk_size m.spec.data_disk_size) "false"
        ∷ [];
    machine_type = "N";
    minimal_cpu_platform = "Intel/Auto";
    network_interface = [];
    login_mode = "Password";
    password = pass;
    user_data = some userdata;
  }

  -- The request is built; nothing has been asked of UCloud yet.
  unfoldable pub build_create_request :
      MachineScope → UcloudMachine → UcloudCluster → String → Op E CreateUhostInstanceRequest
  build_create_request ms m c bootstrap = do
    zone ← choose_zone E (Cluster.region c) (Machine.zone ms m)
    let image_id = get_image_id m (Cluster.region c) zone
    if is_empty image_id
        then fail (errorf "can not get image id for region %s" (Cluster.region c ∷ []))
        else do
          pass ← password m.spec.ssh_password
          userdata ← user_data ms bootstrap
          pure (create_request ms m c zone image_id pass userdata)

  abbrev pub running_loop :
      UcloudCluster → CreateUhostInstanceRequest → List String → Loop UhostInstanceSet
  running_loop c req ids = record {
    asks = record {
      region = req.region;
      project_id = req.project_id;
      zone = some req.zone;
      uhost_ids = ids;
      tag = Cluster.group_name c;
      subnet_id = none;
    };
    test = state_is E.state_running;
    describe_failed = λ e. wrap e "describe uhost failed" [];
    timed_out = λ hosts. errorf "waiting for uhost %s ready timeout" (head_id hosts ∷ []);
    pause = 30 * second;
  }

  -- The error names the first host that was described; the test panics where there is none.
  -- A timer of five minutes with a pause of thirty seconds in each round is read at most 11 times.
  -- The message logged before the loop reads `newUHost.UHostIds[0]`.
  unfoldable pub launch : UcloudCluster → CreateUhostInstanceRequest → Op E UhostInstanceSet
  launch c req = do
    ids ← request E (λ e. wrap e "create uhost failed" []) (create_uhost_instance req)
    first ids
    start ← now_is E
    running ← wait_for E 11 (running_loop c req ids) (new_timer (5 * minute) start)
    pure running.0

  unfoldable pub create_with :
      MachineScope → UcloudMachine → String → UcloudCluster → Op E UhostInstanceSet
  create_with ms m bootstrap c = do req ← build_create_request ms m c bootstrap; launch c req

  unfoldable pub create_for : MachineScope → String → MachineOp E UhostInstanceSet
  unfolding create_with
  create_for ms bootstrap s =
      on_cluster E (with_cluster (create_with ms s.ucloud_machine bootstrap)) s

  unfoldable pub create_instance : MachineScope → MachineOp E UhostInstanceSet
  unfolding create_for
  create_instance ms = do
    bootstrap ← wrapping "failed to retrieve bootstrap data" [] (Machine.get_bootstrap_data E ms)
    create_for ms bootstrap
