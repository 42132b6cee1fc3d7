-- ===== src/Tests/World.antt =====
-- A concrete environment: the world is the time, a call takes a millisecond and never fails, UCloud
-- describes the hosts and the VPCs that it is given, and it makes whatever is asked of it.
use cluster_api_provider_ucl.Prelude.{
  ℕ, suc, ◌+◌, String, pos, false, none, some, List, [], ◌∷◌, inl, inr, if◌then◌else◌, ◌==◌, arith,
}
use cluster_api_provider_ucl.Cloud.{
  Environment, Call, Body, Reply, UhostInstanceSet, VpcInfo, describe_uhost_instance,
  create_uhost_instance, poweroff_uhost_instance, terminate_uhost_instance, describe_vpc,
  create_vpc, delete_vpc, describe_subnet, create_subnet, delete_subnet, describe_natgw,
  create_natgw, delete_natgw, describe_ulb, create_vserver, delete_ulb, describe_vserver,
  allocate_backend, release_backend, allocate_eip, release_eip, bind_eip, unbind_eip,
  describe_firewall, patch_cluster, patch_machine, get_ucloud_cluster, get_ucloud_machine,
  get_secret, delete_machine, list_machines, get_owner_machine, get_owner_cluster,
  get_cluster_from_metadata,
}
use cluster_api_provider_ucl.Service.Wait.{IsClock}
use cluster_api_provider_ucl.Tests.Samples.{whole_cluster, capi_cluster, machine, ucloud_machine}

abbrev pub without : String → List String → List String
without f [] = []
without f (g ∷ gs) = let rest = without f gs in if g == f then rest else g ∷ rest

abbrev pub body : List UhostInstanceSet → List VpcInfo → (c : Call) → Body c
body hosts vpcs (describe_uhost_instance r) = hosts
body hosts vpcs (create_uhost_instance r) = "uhost-1" ∷ []
body hosts vpcs (poweroff_uhost_instance r) = tt
body hosts vpcs (terminate_uhost_instance r) = tt
body hosts vpcs (describe_vpc r) = vpcs
body hosts vpcs (create_vpc r) = "vpc-new"
body hosts vpcs (delete_vpc r) = tt
body hosts vpcs (describe_subnet r) = []
body hosts vpcs (create_subnet r) = "subnet-new"
body hosts vpcs (delete_subnet r) = tt
body hosts vpcs (describe_natgw r) = []
body hosts vpcs (create_natgw r) = "nat-new"
body hosts vpcs (delete_natgw r) = tt
body hosts vpcs (describe_ulb r) = []
body hosts vpcs (create_vserver r) = "vserver-new"
body hosts vpcs (delete_ulb r) = tt
body hosts vpcs (describe_vserver r) = []
body hosts vpcs (allocate_backend r) = tt
body hosts vpcs (release_backend r) = tt
body hosts vpcs (allocate_eip r) = []
body hosts vpcs (release_eip r) = tt
body hosts vpcs (bind_eip r) = tt
body hosts vpcs (unbind_eip r) = tt
body hosts vpcs (describe_firewall r) = []
body hosts vpcs (patch_cluster x) = tt
body hosts vpcs (patch_machine x) = tt
body hosts vpcs (get_ucloud_cluster x y) = whole_cluster
body hosts vpcs (get_ucloud_machine x y) = ucloud_machine
body hosts vpcs (get_secret x y) = ("value", "#cloud-config KUBERNETES_VERSION") ∷ []
body hosts vpcs (delete_machine x) = tt
body hosts vpcs (list_machines x y) = machine ∷ []
body hosts vpcs (get_owner_machine x) = some machine
body hosts vpcs (get_owner_cluster x) = some capi_cluster
body hosts vpcs (get_cluster_from_metadata x) = capi_cluster

-- An environment with a world of its own, whose time the last three arguments tell.
abbrev pub environment_over :
    (W : Type 0)
    → ((c : Call) → W → Reply (Body c) × W)
    → (W → ℕ)
    → (W → W)
    → (ℕ → W → W)
    → Environment
environment_over W answer clock tick pause = record {
  World = W;
  invoke = answer;
  send = λ r w. (record { body = some "{}"; error = none }, tick w);
  now = clock;
  sleep = pause;
  intn = λ n w. (0, w);
  is_not_found = λ e. false;
  parse_provider_id = λ id. if id == "" then none else some "uhost-1";
  is_paused = λ c m. false;
  update_machine_error = "UpdateError";
  external_ip = "ExternalIP";
  internal_ip = "InternalIP";
  add_finalizer = λ f fs. f ∷ without f fs;
  remove_finalizer = λ f fs slice. (without f fs, slice);
  to_query = λ r. inr (λ k. "query");
  unmarshal = λ r text res. (res, none);
  status_error = λ e. none;
  is_sdk_error = λ e. false;
  is_network_error = λ e. false;
  state_running = "Running";
  state_stopped = "Stopped";
  state_initializing = "Initializing";
  state_starting = "Starting";
  go_version = "1.13";
  sdk_version = "0.14";
  base64_decode = λ text. inl text;
  base64_encode = λ text. text;
  marshal_credential = λ k. inl k.public_key;
  uuid_sha1 = λ space text. text;
  quote = λ text. text;
  format_pointer = λ text. "%!s(*string)";
  endpoint_text = λ host port. host;
}

abbrev pub environment : List UhostInstanceSet → List VpcInfo → Environment
environment hosts vpcs =
    environment_over ℕ
      (λ c w. (record { body = body hosts vpcs c; ret_code = pos 0; error = none }, suc w)) (λ w. w)
      (λ w. suc w) (λ d w. w + d)

pub environment-IsClock :
    (hosts : List UhostInstanceSet) (vpcs : List VpcInfo) → IsClock (environment hosts vpcs)
environment-IsClock hosts vpcs = record {
  invoke_later = λ c w. omega arith;
  sleep_later = λ d w. omega arith;
}
