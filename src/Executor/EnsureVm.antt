-- ===== src/Executor/EnsureVm.antt =====
-- EnsureVM of internal/agent/executor/executor.go: a unit for the VM's process, the VM itself, and
-- its row in the inventory.
use Prim.Native.String.{◌++◌ as append}
use cluster_api_hypervisor.Common.{
  ℕ, ◌*◌, ◌%◌, ◌^◌, String, Bool, not, ◌&&◌, ◌||◌, true, false, Option, some, none, List, [], ◌∷◌,
  ◌==◌, eqb, length, if◌then◌else◌,
}
use cluster_api_hypervisor.Exec.{
  Error, Result, ok, err, ch_status, conflict, invalid_request, unavailable, other, Exec, pure,
  raise, lift, attempt, ◌>>=◌, ◌>>◌,
}
use cluster_api_hypervisor.HostAgent.{Owner, Mutation, validate, VmDesired, VmObserved}
use cluster_api_hypervisor.Inventory.{OperationState, completed, Operation, Vm}
use cluster_api_hypervisor.Inventory.Resources.{get_vm, upsert_vm}
use cluster_api_hypervisor.Executor.{
  VmState, running, created, other_state, Manifest, VmConfig, Executor, World, on_store, on_machine,
  is_no_rows,
}
use cluster_api_hypervisor.Executor.Journal.{begin, complete}
use cluster_api_hypervisor.Executor.Vms.{get_vm_of}

-- The firmware of a manifest, if there is one, replaces that of the request.
unfoldable pub with_firmware : Option Manifest → VmDesired → VmDesired
with_firmware none desired = desired
with_firmware (some manifest) desired = record desired {
  firmware = manifest.firmware_path;
  firmware_sha256 = manifest.firmware_sha256;
}

unfoldable pub is_incomplete : VmDesired → Bool
is_incomplete d =
    d.uid == ""
    || d.disk == ""
    || d.firmware == ""
    || d.firmware_sha256 == ""
    || d.api_socket == ""
    || d.vhost_socket == ""
    || d.mac == ""
    || eqb d.cpus 0
    || eqb d.memory_mib 0

unfoldable pub has_empty : List String → Bool
has_empty [] = false
has_empty (path ∷ paths) = path == "" || has_empty paths

unfoldable pub read_only : List String → List (String × Bool)
read_only [] = []
read_only (path ∷ paths) = (path, true) ∷ read_only paths

-- The body of `create`; the size is an int64.
unfoldable pub vm_config : VmDesired → VmConfig
vm_config d = record {
  firmware = d.firmware;
  boot_vcpus = d.cpus;
  max_vcpus = d.cpus;
  memory_size = (d.memory_mib * 1024 * 1024) % 2 ^ 64;
  disks = (d.disk, false) ∷ read_only d.additional_disks;
  vhost_socket = d.vhost_socket;
  mac = d.mac;
}

unfoldable pub unit_name : Owner → String
unit_name owner = append (append "k8slab-vm-" owner.uid) ".service"

abbrev pub vm_row : Mutation → VmDesired → ℕ → Vm
vm_row m d pid = record {
  installation_id = m.owner.installation_id;
  owner_uid = m.owner.uid;
  node_id = m.owner.node_id;
  unit = unit_name m.owner;
  generation = m.generation;
  pid = pid;
  disk = d.disk;
  api_socket = d.api_socket;
  vhost_socket = d.vhost_socket;
  network = "";
  port = "";
  mac = d.mac;
  ip = d.ip;
}

abbrev pub ensured_vm : Mutation → VmDesired → ℕ → VmObserved
ensured_vm m d pid = record {
  uid = d.uid;
  unit = unit_name m.owner;
  pid = pid;
  guest_uptime = 0;
  running = not (eqb pid 0);
  api_socket = d.api_socket;
  vhost_socket = d.vhost_socket;
  ip = d.ip;
  mac = d.mac;
  generation = m.generation;
}

unfoldable pub is_created : VmState → Bool
is_created created = true
is_created _ = false

module _ {N H : Type 0} (e : Executor N H) where
  -- A StatusError that says that there is no VM.
  unfoldable pub is_not_created : Error → Bool
  is_not_created (ch_status code body) =
      eqb code 404 || (eqb code 500 && e.mentions body "vm is not created")
  is_not_created _ = false

  -- A StatusError of a boot after which the VM is created anew.
  unfoldable pub is_stale_boot : Error → Bool
  is_stale_boot (ch_status code body) =
      e.mentions body "image type required for disk"
      || (e.mentions body "error manipulating firmware file"
          && e.mentions body "no such file or directory (os error 2)")
      || (eqb code 500
          && e.mentions body "error from api"
          && e.mentions body "the vm could not boot"
          && e.mentions body "vm is already created")
  is_stale_boot _ = false

  unfoldable pub verify_disks : VmDesired → Bool → Exec (World N H) (Unit {0})
  verify_disks d true =
      on_machine
        (e.host.verify (d.disk ∷ d.additional_disks) (d.disk_sha256 ∷ d.additional_disk_sha256s))
  verify_disks d false = do
    on_machine (e.host.verify_owned_path e.artifact_root d.disk)
    if eqb (length d.additional_disks) 0
        then pure tt
        else on_machine (e.host.verify d.additional_disks d.additional_disk_sha256s)

  -- verifyVMArtifacts, whose paths are the root disk and the additional disks
  unfoldable pub verify_vm_artifacts : VmDesired → Bool → Exec (World N H) (Unit {0})
  verify_vm_artifacts d root_contents =
      if not (eqb (length d.additional_disks) (length d.additional_disk_sha256s))
      then raise (other "lengths")
      else do
        verify_disks d root_contents
        on_machine (e.host.verify_owned_file e.firmware_root d.firmware d.firmware_sha256)

  -- api.Info: the state, or none where there is no VM
  unfoldable pub existing_state : Result VmState → Exec (World N H) (Option VmState)
  existing_state (ok state) = pure (some state)
  existing_state (err failure) = if is_not_created failure then pure none else raise failure

  -- Whether the inventory has the VM; its root disk must not have changed.
  unfoldable pub check_inventory : VmDesired → Result Vm → Exec (World N H) Bool
  check_inventory d (ok row) =
      if not (row.disk == "") && not (row.disk == d.disk) then raise conflict else pure true
  check_inventory d (err failure) = if is_no_rows failure then pure false else raise failure

  -- `!hasInventory && (notCreated || state == "Created")`
  unfoldable pub verifies_root : Bool → Option VmState → Bool
  verifies_root has_row none = not has_row
  verifies_root has_row (some state) = not has_row && is_created state

  unfoldable pub create_if_absent : VmDesired → Option VmState → Exec (World N H) VmState
  create_if_absent d none = do
    on_machine (e.host.vm_create d.api_socket (vm_config d))
    pure created
  create_if_absent d (some state) = pure state

  unfoldable pub recreate : VmDesired → Error → Result Vm → Exec (World N H) (Unit {0})
  recreate d failure (ok row) = raise failure
  recreate d failure (err lookup) = if not (is_no_rows lookup) then raise lookup else do
    on_machine (e.host.vm_delete d.api_socket)
    on_machine (e.host.vm_create d.api_socket (vm_config d))
    on_machine (e.host.vm_boot d.api_socket)

  unfoldable pub after_boot : Mutation → VmDesired → Result (Unit {0}) → Exec (World N H) (Unit {0})
  after_boot m d (ok _) = pure tt
  after_boot m d (err failure) = if not (is_stale_boot failure) then raise failure else do
    row ← attempt (on_store (get_vm m.owner.installation_id m.owner.uid))
    recreate d failure row

  -- The `switch` on the state.
  unfoldable pub boot_if_created : VmState → Mutation → VmDesired → Exec (World N H) (Unit {0})
  boot_if_created running m d = pure tt
  boot_if_created created m d = do
    booted ← attempt (on_machine (e.host.vm_boot d.api_socket))
    after_boot m d booted
  boot_if_created (other_state state) m d = raise (other "unexpected state")

  -- From the state of the VM to a VM that runs.
  unfoldable pub run_vm : Mutation → VmDesired → Exec (World N H) (Unit {0})
  run_vm m d = do
    info ← attempt (on_machine (e.host.vm_info d.api_socket))
    state ← existing_state info
    row ← attempt (on_store (get_vm m.owner.installation_id m.owner.uid))
    has_row ← check_inventory d row
    verify_vm_artifacts d (verifies_root has_row state)
    now ← create_if_absent d state
    boot_if_created now m d

  unfoldable pub start_vm : Mutation → VmDesired → Operation → Exec (World N H) VmObserved
  start_vm m d op = do
    on_machine (e.host.make_socket_directory d.api_socket)
    pid ← on_machine (e.host.install_unit m (unit_name m.owner) d.api_socket)
    on_machine (e.host.wait_for_socket d.api_socket)
    if has_empty d.additional_disks then raise invalid_request else do
      run_vm m d
      on_store (upsert_vm (vm_row m d pid))
      complete m "EnsureVM" op.request_hash completed (e.encode_vm (ensured_vm m d pid)) ""
      pure (ensured_vm m d pid)

  unfoldable pub ensure_by :
      OperationState → Mutation → VmDesired → Operation → Exec (World N H) VmObserved
  ensure_by completed m d op = get_vm_of e m.owner
  ensure_by _ m d op = start_vm m d op

  -- A system or an inventory is missing.
  abbrev pub is_unequipped : Bool
  is_unequipped =
      not e.has_systemd
      || not e.has_store
      || e.unit_dir == ""
      || e.cloud_hypervisor == ""
      || e.firmware_root == ""

  unfoldable pub ensure_desired : Mutation → VmDesired → Exec (World N H) VmObserved
  ensure_desired m d =
      if is_unequipped
      then raise unavailable
      else if is_incomplete d
      then raise invalid_request
      else do op ← begin e m "EnsureVM" []; ensure_by op.state m d op

  -- EnsureVM
  unfoldable pub ensure_vm : Mutation → VmDesired → Exec (World N H) VmObserved
  ensure_vm m desired = do lift (validate m); ensure_desired m (with_firmware e.manifest desired)
