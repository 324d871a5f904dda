-- ===== src/ControlPlane/Versions.antt =====
-- The replacement of a Machine whose version is not the control plane's: reconcileVersionDrift of
-- controllers/hypervisorcontrolplane_controller.go, with the etcd snapshot that precedes it.
use Prim.Native.String.{◌++◌ as append, slice, len}
use text.Mathlib.Text.{starts_with}
use cluster_api_hypervisor.Common.{
  ℕ, String, Bool, true, false, not, ◌&&◌, Option, none, some, List, [], ◌∷◌, ◌==◌, eqb,
  if◌then◌else◌,
}
use cluster_api_hypervisor.Common.Int.{ℤ, pos, ltb_ℤ}
use cluster_api_hypervisor.Exec.{other, Exec, pure, raise, ◌>>=◌, ◌>>◌}
use cluster_api_hypervisor.ControlPlane.{
  Replacement, Plane, Cluster, Machine, Config, MachinePublishedPort, HypervisorMachine,
}
use cluster_api_hypervisor.ControlPlane.Server.{
  World, Reconciler, on_outside, update_status, list_machines, get_machine, delete_machine,
  get_config, delete_config, get_hypervisor_machine, delete_hypervisor_machine, write_file,
}

-- ctrl.Result: nothing more to do now, or RequeueAfter.
pub data Outcome : Type 0 where
  done requeue : Outcome

-- publishedHostPort
unfoldable pub published_host_port : List MachinePublishedPort → ℕ → Option ℕ
published_host_port [] vm_port = none
published_host_port (p ∷ ports) vm_port =
    let rest = published_host_port ports vm_port in
    if eqb p.vm_port vm_port then some p.host_port else rest

-- strings.TrimPrefix
abbrev trim_prefix : String → String → String
trim_prefix text prefix =
    if starts_with text prefix then slice text (len prefix) (len text) else text

-- machineDrifted
unfoldable pub machine_drifted : Machine → String → Bool
machine_drifted m desired = not (m.version == "") && not (m.version == desired)

abbrev pub with_replacement : Option Replacement → Plane → Plane
with_replacement r p = record p { status = record p.status { replacement = r } }

abbrev pub recorded : Machine → String → Plane → Plane
recorded m path plane =
    with_replacement
      (some
        record { machine_name = m.name; target_version = plane.spec.version; snapshot_path = path })
      plane

module _ {S : Type 0} (e : Reconciler S) where
  -- controlPlaneMachineIndex
  unfoldable pub control_plane_machine_index : String → String → Option ℤ
  control_plane_machine_index name plane =
      let prefix = append plane "-" in
      if not (starts_with name prefix) then none else e.parse_int32 (trim_prefix name prefix)

  -- The drifted Machine with the highest index so far, and that index
  abbrev pub Candidate : Type 0
  Candidate = Option (Machine × ℤ)

  abbrev is_higher : ℤ → Candidate → Bool
  is_higher index none = true
  is_higher index (some best) = ltb_ℤ best.1 index

  -- `!ok || index >= replicas`, and the choice of the higher index
  unfoldable pub consider : ℕ → Machine → Option ℤ → Candidate → Candidate
  consider replicas m none best = best
  consider replicas m (some index) best =
      if not (ltb_ℤ index (pos replicas))
      then best
      else if is_higher index best
      then some (m, index)
      else best

  -- The loop of reconcileVersionDrift.
  unfoldable pub find_drifted : Plane → ℕ → List Machine → Candidate → Candidate
  find_drifted plane replicas [] best = best
  find_drifted plane replicas (m ∷ ms) best = find_drifted plane replicas ms (
      if machine_drifted m plane.spec.version
      then consider replicas m (control_plane_machine_index m.name plane.name) best
      else best)

  -- `rep == nil || rep.MachineName != drifted.Name || rep.TargetVersion != cp.Spec.Version`, negated
  unfoldable pub is_recorded : Option Replacement → String → String → Bool
  is_recorded none name version = false
  is_recorded (some rep) name version = rep.machine_name == name && rep.target_version == version

  -- The path of a snapshot below the state directory.
  abbrev pub snapshot_path : String → String → String → String
  snapshot_path cluster machine version = e.join (
      e.state_dir ∷ cluster ∷ "snapshots" ∷ append machine (append "-" (append version ".db")) ∷ [])

  -- writeEtcdSnapshot
  unfoldable pub write_etcd_snapshot : String → String → String → String → Exec (World S) String
  write_etcd_snapshot cluster machine version snapshot =
      if e.state_dir == ""
      then raise (other "state dir")
      else if not (e.can_write (snapshot_path cluster machine version))
      then raise (other "write etcd snapshot")
      else write_file (snapshot_path cluster machine version) snapshot
        >> pure (snapshot_path cluster machine version)

  -- The Outcome comes with the control plane as it stands in memory.
  unfoldable pub record_snapshot :
      Plane → Cluster → Machine → String → Exec (World S) (Outcome × Plane)
  record_snapshot plane cluster m snapshot = do
    path ← write_etcd_snapshot cluster.name m.name plane.spec.version snapshot
    update_status (recorded m path plane).status
    pure (requeue, recorded m path plane)

  unfoldable pub capture_at :
      (String → ℕ → Exec S String)
      → Plane
      → Cluster
      → Machine
      → Option ℕ
      → Exec (World S) (Outcome × Plane)
  capture_at capture plane cluster m none = pure (requeue, plane)
  capture_at capture plane cluster m (some port) = do
    snapshot ← on_outside (capture "127.0.0.1" port)
    record_snapshot plane cluster m snapshot

  unfoldable pub capture_from :
      (String → ℕ → Exec S String)
      → Plane
      → Cluster
      → Machine
      → Option HypervisorMachine
      → Exec (World S) (Outcome × Plane)
  capture_from capture plane cluster m none = pure (requeue, plane)
  capture_from capture plane cluster m (some h) =
      capture_at capture plane cluster m (published_host_port h.published_ports 2379)

  unfoldable pub capture_by :
      Option (String → ℕ → Exec S String)
      → Plane
      → Cluster
      → Machine
      → Exec (World S) (Outcome × Plane)
  capture_by none plane cluster m = raise (other "etcd snapshot seam")
  capture_by (some capture) plane cluster m = do
    h ← get_hypervisor_machine m.name
    capture_from capture plane cluster m h

  -- captureReplacementSnapshot
  unfoldable pub capture_replacement_snapshot :
      Plane → Cluster → Machine → Exec (World S) (Outcome × Plane)
  capture_replacement_snapshot plane cluster m = capture_by e.capture_etcd_snapshot plane cluster m

  abbrev pub delete_found_config : Option Config → Exec (World S) (Unit {0})
  delete_found_config none = pure tt
  delete_found_config (some c) = delete_config c.name

  abbrev pub delete_found_hypervisor_machine : Option HypervisorMachine → Exec (World S) (Unit {0})
  delete_found_hypervisor_machine none = pure tt
  delete_found_hypervisor_machine (some h) = delete_hypervisor_machine h.name

  -- deleteReplacedMachine
  unfoldable pub delete_replaced_machine : Machine → Exec (World S) Outcome
  delete_replaced_machine m = do
    delete_machine m.name
    c ← get_config (append m.name "-config")
    delete_found_config c
    h ← get_hypervisor_machine m.name
    delete_found_hypervisor_machine h
    pure requeue

  unfoldable pub replace_machine : Plane → Cluster → Machine → Exec (World S) (Outcome × Plane)
  replace_machine plane cluster m =
      if is_recorded plane.status.replacement m.name plane.spec.version
      then delete_replaced_machine m >>= (λ outcome. pure (outcome, plane))
      else capture_replacement_snapshot plane cluster m

  -- A recorded replacement is over when its Machine is back at the desired version.
  unfoldable pub clear_if_back : Plane → Option Machine → Exec (World S) (Outcome × Plane)
  clear_if_back plane none = pure (done, plane)
  clear_if_back plane (some m) =
      if machine_drifted m plane.spec.version then pure (done, plane) else do
        update_status (with_replacement none plane).status
        pure (done, with_replacement none plane)

  unfoldable pub finish_replacement : Plane → Option Replacement → Exec (World S) (Outcome × Plane)
  finish_replacement plane none = pure (done, plane)
  finish_replacement plane (some rep) = do m ← get_machine rep.machine_name; clear_if_back plane m

  unfoldable pub drift_step : Plane → Cluster → Candidate → Exec (World S) (Outcome × Plane)
  drift_step plane cluster (some best) = replace_machine plane cluster best.0
  drift_step plane cluster none = finish_replacement plane plane.status.replacement

  -- reconcileVersionDrift
  unfoldable pub reconcile_version_drift : Plane → Cluster → ℕ → Exec (World S) (Outcome × Plane)
  reconcile_version_drift plane cluster replicas =
      if plane.spec.version == "" then pure (done, plane) else do
        machines ← list_machines cluster.name
        drift_step plane cluster (find_drifted plane replicas machines none)
