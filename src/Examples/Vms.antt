-- ===== src/Examples/Vms.antt =====
-- Tests of the VM operations of internal/agent/executor/executor.go.
use cluster_api_hypervisor.Common.{
  ◌≡◌, refl, [], ◌∷◌, find, exists_row, select, affected, update, delete, ℕ,
}
use cluster_api_hypervisor.Exec.{ok, ◌>>=◌}
use cluster_api_hypervisor.HostAgent.{validate}
use cluster_api_hypervisor.Inventory.{Vm, Store, statement}
use cluster_api_hypervisor.Inventory.Journal.{
  has_key, same_request, validate_operation, begin_operation, insert_intent, load_operation,
  is_terminal, complete_operation, record_outcome, same_state,
}
use cluster_api_hypervisor.Inventory.Resources.{
  owns_resource, has_owner, get_network_resource, read_network_resource, list_published_ports,
  read_published_ports, sort_by_guest, delete_network_resource, drop_network_resource, get_vm,
  read_vm, has_vm_key, delete_vm, drop_vm,
}
use cluster_api_hypervisor.Executor.{World, on_store, on_network, on_machine, tolerate}
use cluster_api_hypervisor.Executor.Journal.{begin, complete, journal_error}
use cluster_api_hypervisor.Executor.Ports.{
  delete_port, delete_port_of, release_resource, release_mappings,
}
use cluster_api_hypervisor.Executor.Vms.{
  stop_vm, stop_by, stop_found, after_shutdown, after_stop, delete_vm_of, delete_found,
  remove_artifacts, remove_owned_artifact, remove_each,
}
use cluster_api_hypervisor.Executor.VmLaws.{NoVm, delete_vm-NoVm}
use cluster_api_hypervisor.Examples.Data.{alice, by, resource, store_of, world_of, agent}

abbrev vm : Vm
vm = record {
  installation_id = "lab";
  owner_uid = "vm-1";
  node_id = "node-1";
  unit = "k8slab-vm-vm-1.service";
  generation = 3;
  pid = 42;
  disk = "/artifacts/vm-1-root.qcow2";
  api_socket = "/artifacts/vm-1.sock";
  vhost_socket = "/run/vm-1.vhost";
  network = "";
  port = "";
  mac = "52:54:00:00:00:01";
  ip = "10.0.0.2";
}

abbrev store : Store
store = record (store_of [] (resource ∷ []) []) {
  tables = record {
    operations = [];
    journal = [];
    networks = resource ∷ [];
    vms = vm ∷ [];
    ports = [];
  };
}

abbrev running : World ℕ ℕ
running = world_of store

deleted : (delete_vm_of agent (by alice) running).0 ≡ ok tt
unfolding delete_vm_of stop_vm validate ◌>>=◌ on_store on_network on_machine statement begin
    begin_operation journal_error insert_intent load_operation has_key exists_row same_request
    is_terminal validate_operation find stop_by get_vm read_vm has_vm_key stop_found after_shutdown
    after_stop complete complete_operation record_outcome affected update same_state delete_found
    delete_port get_network_resource read_network_resource owns_resource delete_port_of
    release_resource list_published_ports read_published_ports sort_by_guest select has_owner
    release_mappings tolerate delete_network_resource drop_network_resource delete remove_artifacts
    remove_owned_artifact remove_each delete_vm drop_vm
deleted = refl

delete_vm-NoVm_example : NoVm "lab" "vm-1" (delete_vm_of agent (by alice) running).1.store.tables
delete_vm-NoVm_example = delete_vm-NoVm agent (by alice) running deleted
