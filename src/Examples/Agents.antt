-- ===== src/Examples/Agents.antt =====
-- Tests of the executor behind internal/agentgrpc, and of EnsureVM and EnsureNetwork.
use cluster_api_hypervisor.Common.{
  ℕ, ◌≡◌, refl, ◌⊎◌, true, false, [], ◌∷◌, find, exists_row, affected, update,
}
use cluster_api_hypervisor.Exec.{ok, conflict, panic, internal, status_error, ◌>>=◌}
use cluster_api_hypervisor.HostAgent.{validate, Capabilities, VmDesired, VmObserved}
use cluster_api_hypervisor.Inventory.{statement}
use cluster_api_hypervisor.Inventory.Journal.{
  has_key, same_request, validate_operation, begin_operation, insert_intent, load_operation,
  is_terminal, complete_operation, record_outcome, same_state,
}
use cluster_api_hypervisor.Inventory.Resources.{get_vm, read_vm, has_vm_key, upsert_vm, put_vm}
use cluster_api_hypervisor.Executor.{World, on_store, on_machine, is_no_rows}
use cluster_api_hypervisor.Executor.Journal.{begin, complete, journal_error}
use cluster_api_hypervisor.Executor.Steps.{WorldStep}
use cluster_api_hypervisor.Executor.EnsureVm.{
  with_firmware, is_incomplete, has_empty, verify_disks, verify_vm_artifacts, existing_state,
  check_inventory, verifies_root, create_if_absent, boot_if_created, run_vm, start_vm, ensure_by,
  ensure_desired, ensure_vm, ensured_vm, unit_name, is_created,
}
use cluster_api_hypervisor.Executor.EnsureLaws.{IsRecorded, ensure_vm-IsRecorded}
use cluster_api_hypervisor.Rpc.Remote.{Carries, carried, remote, remote-Carries}
use cluster_api_hypervisor.Rpc.Errors.{has_code, carried-cases}
use cluster_api_hypervisor.Rpc.Agent.{MovesAll, executor_agent, remote_executor-MovesAll}
use cluster_api_hypervisor.Examples.Data.{alice, by, store_of, world_of, agent}

abbrev desired : VmDesired
desired = record {
  name = "vm-1";
  image = "";
  uid = "vm-1";
  disk = "/artifacts/vm-1-root.qcow2";
  additional_disks = "/artifacts/cidata.iso" ∷ [];
  disk_sha256 = "00";
  additional_disk_sha256s = "00" ∷ [];
  firmware = "/firmware/hypervisor-fw";
  firmware_sha256 = "00";
  memory_mib = 2048;
  cpus = 2;
  api_socket = "/artifacts/vm-1.sock";
  vhost_socket = "/run/vm-1.vhost";
  mac = "52:54:00:00:00:01";
  ip = "10.0.0.2";
}

abbrev configured : Capabilities
configured = record {
  node_id = "";
  cloud_hypervisor = "";
  k8netd_protocol_major = 0;
  can_use_kvm = false;
  can_use_user_dbus = false;
}

abbrev idle : World ℕ ℕ
idle = world_of (store_of [] [] [])

remote-Carries_example : Carries (executor_agent agent) (remote (executor_agent agent) configured)
remote-Carries_example = remote-Carries (executor_agent agent) configured

remote_executor-MovesAll_example : MovesAll WorldStep (remote (executor_agent agent) configured)
remote_executor-MovesAll_example = remote_executor-MovesAll agent configured

carried-cases_example :
    ((has_code conflict ≡ true) × (carried conflict ≡ conflict))
    ⊎ ((has_code conflict ≡ false) × (carried conflict ≡ status_error internal))
    ⊎ ((conflict ≡ panic) × (carried conflict ≡ panic))
carried-cases_example = carried-cases conflict

abbrev started : VmObserved
started = ensured_vm (by alice) desired 42

ensured : (ensure_vm agent (by alice) desired idle).0 ≡ ok started
unfolding ensure_vm ensure_desired ensure_by start_vm run_vm with_firmware is_incomplete has_empty
    verify_disks verify_vm_artifacts existing_state check_inventory verifies_root create_if_absent
    boot_if_created validate ◌>>=◌ on_store on_machine statement begin begin_operation journal_error
    insert_intent load_operation has_key exists_row same_request is_terminal validate_operation find
    get_vm read_vm has_vm_key upsert_vm put_vm complete complete_operation record_outcome affected
    update same_state is_no_rows unit_name is_created
ensured = refl

ensure_vm-IsRecorded_example :
    IsRecorded (by alice) started (ensure_vm agent (by alice) desired idle).1.store.tables
ensure_vm-IsRecorded_example = ensure_vm-IsRecorded agent (by alice) desired idle started ensured
