-- ===== src/Examples/Data.antt =====
-- Data for the tests of internal/agent: requests, an inventory, and an executor whose network daemon
-- counts its calls.
use cluster_api_hypervisor.Common.{◌==◌, ℕ, suc, String, true, false, none, List, [], ◌∷◌}
use cluster_api_hypervisor.Common.Int.{pos}
use cluster_api_hypervisor.Exec.{ok, Exec}
use cluster_api_hypervisor.HostAgent.{Owner, Mutation, PortRequest}
use cluster_api_hypervisor.Inventory.{
  OperationState, Operation, NetworkResource, PublishedPort, Store,
}
use cluster_api_hypervisor.Executor.{NetworkClient, running, HostClient, Executor, World}

abbrev pub alice : Owner
alice = record { installation_id = "lab"; node_id = "node-1"; uid = "vm-1" }

abbrev pub bob : Owner
bob = record { installation_id = "lab"; node_id = "node-2"; uid = "vm-1" }

abbrev pub by : Owner → Mutation
by o = record {
  protocol_major = 1;
  owner = o;
  generation = 3;
  idempotency_key = "vm-1-3-publish-port";
  retain_disk = false;
}

abbrev pub entry : OperationState → String → Operation
entry state result = record {
  installation_id = "lab";
  owner_uid = "vm-1";
  node_id = "node-1";
  key = "vm-1-3-publish-port";
  kind = "PublishPort";
  request_hash = "abc";
  generation = 3;
  state = state;
  result = result;
  failure = "";
  created_at = 7;
  updated_at = 7;
}

abbrev pub resource : NetworkResource
resource = record {
  installation_id = "lab";
  owner_uid = "vm-1";
  node_id = "node-1";
  network = "net";
  port = "port-1";
  mac = "52:54:00:00:00:01";
  ip = "10.0.0.2";
}

abbrev pub mapping : PublishedPort
mapping = record { installation_id = "lab"; owner_uid = "vm-1"; guest_port = 80; host_port = 30080 }

abbrev pub store_of : List Operation → List NetworkResource → List PublishedPort → Store
store_of journal networks ports = record {
  tables = record {
    operations = [];
    journal = journal;
    networks = networks;
    vms = [];
    ports = ports;
  };
  now = 9;
  foreign_keys = true;
  faults = [];
}

abbrev counted : {A : Type 0} → A → Exec ℕ A
counted a n = (ok a, suc n)

abbrev pub daemon : NetworkClient ℕ
daemon = record {
  create_network = λ _ _ _ _ _. counted tt;
  delete_network = λ _. counted tt;
  create_port = λ _. counted tt;
  delete_port = λ _. counted tt;
  attach_port = λ _ _ _. counted tt;
  detach_port = λ _. counted tt;
  allocate_ip = λ _ _. counted "10.0.0.2";
  release_ip = λ _ _. counted tt;
  publish_port = λ _ _. counted (pos 30080);
  unpublish_port = λ _ _. counted tt;
}

abbrev pub host : HostClient ℕ
host = record {
  make_socket_directory = λ _. counted tt;
  install_unit = λ _ _ _. counted 42;
  get_unit = λ _. counted 42;
  stop_unit = λ _. counted tt;
  wait_for_socket = λ _. counted tt;
  socket_exists = λ _. counted true;
  vm_info = λ _. counted running;
  vm_create = λ _ _. counted tt;
  vm_boot = λ _. counted tt;
  vm_delete = λ _. counted tt;
  vm_shutdown = λ _. counted tt;
  verify = λ _ _. counted tt;
  verify_owned_path = λ _ _. counted tt;
  verify_owned_file = λ _ _ _. counted tt;
  prepare_root_disk = λ _ _. counted "/artifacts/vm-1-root.qcow2";
  prepare_cidata = λ _ _. counted ("/artifacts/cidata.iso", "00");
  digest_file = λ _. counted "00";
  write_tree = λ _ _. counted tt;
  build_raws = λ _ _. counted ("/artifacts/a.raw" ∷ []);
  is_within = λ _ _. true;
  remove_all = λ _ n. suc n;
  siblings = λ disk _. disk ∷ [];
}

abbrev pub agent : Executor ℕ ℕ
agent = record {
  network = daemon;
  host = host;
  has_network = true;
  has_store = true;
  has_systemd = true;
  node_id = "node-1";
  kvm_path = "/dev/kvm";
  k8netd_socket = "/run/k8netd.sock";
  cloud_hypervisor = "/usr/bin/cloud-hypervisor";
  unit_dir = "/units";
  firmware_root = "/firmware";
  artifact_root = "/artifacts";
  manifest = none;
  operation_hash = λ _ _ _. "abc";
  error_text = λ _. "failed";
  encode_port = λ _. "30080";
  decode_port = λ _. ok 30080;
  encode_vm = λ _. "vm";
  encode_artifact = λ _. "artifact";
  decode_artifact = λ _. ok record { paths = "/a" ∷ []; sha256s = "00" ∷ [] };
  fill_artifact = λ _. record { paths = "/a" ∷ []; sha256s = "00" ∷ [] };
  join = λ a b. b;
  is_blank = λ s. s == "";
  mentions = λ _ _. false;
  parse_prefix =
      λ _. ok record { is_four = true; bits = 24; masked = record { a = 10; b = 0; c = 0; d = 0 } };
  format_address = λ _. "address";
  describe_vm = λ _. "unit";
}

abbrev pub world_of : Store → World ℕ ℕ
world_of s = record { store = s; net = 0; machine = 0 }

abbrev pub port_request : PortRequest
port_request = record { name = "port-1"; network = "net"; mac = "52:54:00:00:00:01" }
