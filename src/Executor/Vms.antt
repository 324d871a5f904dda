-- ===== src/Executor/Vms.antt =====
-- GetVM, StopVM, DeleteVM and Diagnostics of internal/agent/executor/executor.go.
use cluster_api_hypervisor.Common.{
  ℕ, String, Bool, not, ◌&&◌, ◌||◌, true, false, List, [], ◌∷◌, ◌==◌, eqb, if◌then◌else◌,
}
use cluster_api_hypervisor.Exec.{
  Error, Result, ok, err, ch_status, not_found, unauthorized, unavailable, Exec, pure, raise, lift,
  attempt, ◌>>=◌, ◌>>◌,
}
use cluster_api_hypervisor.HostAgent.{Owner, Mutation, validate_owner, validate, VmObserved}
use cluster_api_hypervisor.Inventory.{OperationState, intent, completed, failed, Operation, Vm}
use cluster_api_hypervisor.Inventory.Resources.{get_vm, delete_vm}
use cluster_api_hypervisor.Executor.{Executor, World, on_store, on_machine, is_no_rows}
use cluster_api_hypervisor.Executor.Journal.{begin, complete}
use cluster_api_hypervisor.Executor.Ports.{delete_port}

-- The VM's row, whose owner asks: another node is refused.
abbrev observed_vm : Owner → Vm → ℕ → VmObserved
observed_vm owner vm pid = record {
  uid = owner.uid;
  unit = vm.unit;
  pid = pid;
  guest_uptime = 0;
  running = not (eqb pid 0);
  api_socket = vm.api_socket;
  vhost_socket = vm.vhost_socket;
  ip = vm.ip;
  mac = vm.mac;
  generation = vm.generation;
}

-- errors.As of a StatusError
unfoldable pub is_status : Error → Bool
is_status (ch_status code body) = true
is_status _ = false

module _ {N H : Type 0} (e : Executor N H) where
  unfoldable pub observe_vm : Owner → Result Vm → Exec (World N H) VmObserved
  observe_vm owner (err failure) = if is_no_rows failure then raise not_found else raise failure
  observe_vm owner (ok vm) =
      if not (vm.node_id == owner.node_id)
      then raise unauthorized
      else do pid ← on_machine (e.host.get_unit vm.unit); pure (observed_vm owner vm pid)

  -- GetVM
  unfoldable pub get_vm_of : Owner → Exec (World N H) VmObserved
  get_vm_of owner = do
    lift (validate_owner owner)
    if not e.has_store || not e.has_systemd then raise unavailable else do
      found ← attempt (on_store (get_vm owner.installation_id owner.uid))
      observe_vm owner found

  -- The error of a shutdown is returned when the API socket is there and it is no StatusError.
  unfoldable pub after_shutdown : Vm → Result (Unit {0}) → Exec (World N H) (Unit {0})
  after_shutdown vm (ok _) = pure tt
  after_shutdown vm (err failure) = do
    present ← on_machine (e.host.socket_exists vm.api_socket)
    if present && not (is_status failure) then raise failure else pure tt

  unfoldable pub after_stop : Mutation → Operation → Result (Unit {0}) → Exec (World N H) (Unit {0})
  after_stop m op (ok _) = complete m "StopVM" op.request_hash completed "stopped" ""
  after_stop m op (err failure) = do
    attempt (complete m "StopVM" op.request_hash failed "" (e.error_text failure))
    raise failure

  unfoldable pub stop_found : Mutation → Operation → Result Vm → Exec (World N H) (Unit {0})
  stop_found m op (err failure) =
      if is_no_rows failure
      then complete m "StopVM" op.request_hash completed "absent" ""
      else raise failure
  stop_found m op (ok vm) = if not (vm.node_id == m.owner.node_id) then raise unauthorized else do
    stopped ← attempt (on_machine (e.host.vm_shutdown vm.api_socket))
    after_shutdown vm stopped
    unit_stopped ← attempt (on_machine (e.host.stop_unit vm.unit))
    after_stop m op unit_stopped

  unfoldable pub stop_by : OperationState → Mutation → Operation → Exec (World N H) (Unit {0})
  stop_by completed m op = pure tt
  stop_by failed m op = raise unavailable
  stop_by intent m op = do
    found ← attempt (on_store (get_vm m.owner.installation_id m.owner.uid))
    stop_found m op found

  -- StopVM
  unfoldable pub stop_vm : Mutation → Exec (World N H) (Unit {0})
  stop_vm m = do
    lift (validate m)
    if not e.has_store || not e.has_systemd
        then raise unavailable
        else do op ← begin e m "StopVM" []; stop_by op.state m op

  -- removeOwnedArtifact
  unfoldable pub remove_owned_artifact : String → H → H
  remove_owned_artifact path h =
      if e.host.is_within e.artifact_root path then e.host.remove_all path h else h

  unfoldable pub remove_each : List String → H → H
  remove_each [] h = h
  remove_each (path ∷ paths) h = remove_each paths (remove_owned_artifact path h)

  -- `!mutation.RetainDisk && e.Artifacts.Root != ""`, and the removals
  unfoldable pub remove_artifacts : Mutation → Vm → H → H
  remove_artifacts m vm h =
      if not m.retain_disk && not (e.artifact_root == "")
      then (let h' = remove_owned_artifact vm.api_socket (remove_owned_artifact vm.disk h) in
          remove_each (e.host.siblings vm.disk h') h')
      else h

  abbrev removal : Mutation → Vm → Exec H (Unit {0})
  removal m vm h = (ok tt, remove_artifacts m vm h)

  unfoldable pub delete_found : Mutation → Result Vm → Exec (World N H) (Unit {0})
  delete_found m (err failure) = if is_no_rows failure then pure tt else raise failure
  delete_found m (ok vm) = if not (vm.node_id == m.owner.node_id) then raise unauthorized else do
    if e.has_network then delete_port e m else pure tt
    on_machine (removal m vm)
    on_store (delete_vm m.owner.installation_id m.owner.uid)

  -- DeleteVM; a nil Store is refused by StopVM
  unfoldable pub delete_vm_of : Mutation → Exec (World N H) (Unit {0})
  delete_vm_of m = do
    lift (validate m)
    stop_vm m
    found ← attempt (on_store (get_vm m.owner.installation_id m.owner.uid))
    delete_found m found
