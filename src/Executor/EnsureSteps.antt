-- ===== src/Executor/EnsureSteps.antt =====
-- EnsureVM, the network and the artifact operations of internal/agent/executor/executor.go: what they
-- do to the journal.
use cluster_api_hypervisor.Common.{
  String, Bool, true, false, ◌≡◌, Option, none, some, List, [], ◌∷◌, arith,
}
use cluster_api_hypervisor.Exec.{Error, Result, ok, err}
use cluster_api_hypervisor.Exec.Rules.{Moves, Moves-bind}
use cluster_api_hypervisor.HostAgent.{
  Owner, Mutation, VmDesired, VmObserved, NetworkRequest, ArtifactFile, ArtifactResult,
  RootDiskRequest,
}
use cluster_api_hypervisor.Inventory.{
  OperationState, intent, completed, failed, Operation, Vm, Tables,
}
use cluster_api_hypervisor.Inventory.JournalSteps.{JournalStep}
use cluster_api_hypervisor.Inventory.Resources.{upsert_vm, put_vm}
use cluster_api_hypervisor.Executor.{VmState, running, created, other_state, Prefix, Executor}
use cluster_api_hypervisor.Executor.Steps.{
  WorldStep, step_rules, world_order, other_table, begin-WorldStep, complete-WorldStep,
}
use cluster_api_hypervisor.Executor.Vms.{observe_vm, get_vm_of}
use cluster_api_hypervisor.Executor.VmLaws.{get_vm-step}
use cluster_api_hypervisor.Executor.EnsureVm.{
  verify_disks, verify_vm_artifacts, existing_state, check_inventory, create_if_absent, recreate,
  after_boot, boot_if_created, run_vm, start_vm, ensure_by, ensure_desired, ensure_vm,
}
use cluster_api_hypervisor.Executor.Networks.{
  Pool, create_pool, ensure_prefix, ensure_network, diagnose, diagnostics, health,
}
use cluster_api_hypervisor.Executor.Artifacts.{
  digest_all, finish, check_one, begin_stored, root_disk_by, prepare_root_disk, cidata_by,
  prepare_cidata, confext_by, prepare_confext,
}

put_vm-journal : (v : Vm) (t : Tables) → (put_vm v t).1.journal ≡ t.journal
unfolding put_vm
put_vm-journal v t = ground arith

upsert_vm-step : (v : Vm) → Moves JournalStep (upsert_vm v)
unfolding upsert_vm
upsert_vm-step v = other_table _ (put_vm-journal v)

module _ {N H : Type 0} (e : Executor N H) where
  observe_vm-step : (o : Owner) (r : Result Vm) → Moves WorldStep (observe_vm e o r)
  unfolding observe_vm
  observe_vm-step o (ok vm) = search step_rules depth 10
  observe_vm-step o (err x) = search step_rules

  pub get_vm_of-step : (o : Owner) → Moves WorldStep (get_vm_of e o)
  unfolding get_vm_of
  get_vm_of-step o = search (step_rules, get_vm-step, observe_vm-step) depth 12

  verify_disks-step : (d : VmDesired) (b : Bool) → Moves WorldStep (verify_disks e d b)
  unfolding verify_disks
  verify_disks-step d true = search step_rules
  verify_disks-step d false = search step_rules depth 10

  verify_artifacts-step : (d : VmDesired) (b : Bool) → Moves WorldStep (verify_vm_artifacts e d b)
  unfolding verify_vm_artifacts
  verify_artifacts-step d b = search (step_rules, verify_disks-step) depth 10

  existing_state-step : (r : Result VmState) → Moves WorldStep (existing_state e r)
  unfolding existing_state
  existing_state-step (ok _) = search step_rules
  existing_state-step (err x) = search step_rules

  check_inventory-step : (d : VmDesired) (r : Result Vm) → Moves WorldStep (check_inventory e d r)
  unfolding check_inventory
  check_inventory-step d (ok _) = search step_rules
  check_inventory-step d (err x) = search step_rules

  create_if_absent-step :
      (d : VmDesired) (st : Option VmState) → Moves WorldStep (create_if_absent e d st)
  unfolding create_if_absent
  create_if_absent-step d none = search step_rules
  create_if_absent-step d (some _) = search step_rules

  recreate-step : (d : VmDesired) (x : Error) (r : Result Vm) → Moves WorldStep (recreate e d x r)
  unfolding recreate
  recreate-step d x (ok _) = search step_rules
  recreate-step d x (err y) = search step_rules depth 10

  after_boot-step :
      (m : Mutation) (d : VmDesired) (r : Result (Unit {0})) → Moves WorldStep (after_boot e m d r)
  unfolding after_boot
  after_boot-step m d (ok _) = search step_rules
  after_boot-step m d (err x) = search (step_rules, get_vm-step, recreate-step) depth 10

  boot_if_created-step :
      (st : VmState) (m : Mutation) (d : VmDesired) → Moves WorldStep (boot_if_created e st m d)
  unfolding boot_if_created
  boot_if_created-step running m d = search step_rules
  boot_if_created-step created m d = search (step_rules, after_boot-step)
  boot_if_created-step (other_state _) m d = search step_rules

  run_vm-step : (m : Mutation) (d : VmDesired) → Moves WorldStep (run_vm e m d)
  unfolding run_vm
  run_vm-step m d =
      search
        (
          step_rules, get_vm-step, existing_state-step, check_inventory-step, verify_artifacts-step,
          create_if_absent-step, boot_if_created-step,
        )
        depth 20

  start_vm-step :
      (m : Mutation) (d : VmDesired) (op : Operation) → Moves WorldStep (start_vm e m d op)
  unfolding start_vm
  start_vm-step m d op =
      search (step_rules, run_vm-step, upsert_vm-step, complete-WorldStep) depth 20

  ensure_by-step :
      (st : OperationState) (m : Mutation) (d : VmDesired) (op : Operation)
      → Moves WorldStep (ensure_by e st m d op)
  unfolding ensure_by
  ensure_by-step completed m d op = get_vm_of-step m.owner
  ensure_by-step intent m d op = start_vm-step m d op
  ensure_by-step failed m d op = start_vm-step m d op

  ensure_desired-step : (m : Mutation) (d : VmDesired) → Moves WorldStep (ensure_desired e m d)
  unfolding ensure_desired
  ensure_desired-step m d = search (step_rules, begin-WorldStep, ensure_by-step) depth 12

  -- However EnsureVM ends, no row leaves the journal, each keeps its request, a row with an outcome
  -- is unchanged, and keys stay unique.
  pub ensure_vm-step : (m : Mutation) (d : VmDesired) → Moves WorldStep (ensure_vm e m d)
  unfolding ensure_vm
  ensure_vm-step m d = search (step_rules, ensure_desired-step)

  create_pool-step : (req : NetworkRequest) (pool : Pool) → Moves WorldStep (create_pool e req pool)
  unfolding create_pool
  create_pool-step req pool = search step_rules

  ensure_prefix-step :
      (req : NetworkRequest) (r : Result Prefix) → Moves WorldStep (ensure_prefix e req r)
  unfolding ensure_prefix
  ensure_prefix-step req (ok prefix) = search (step_rules, create_pool-step)
  ensure_prefix-step req (err x) = search step_rules

  pub ensure_network-step :
      (m : Mutation) (req : NetworkRequest) → Moves WorldStep (ensure_network e m req)
  unfolding ensure_network
  ensure_network-step m req = search (step_rules, ensure_prefix-step)

  diagnose-step : (o : Owner) (r : Result VmObserved) → Moves WorldStep (diagnose e o r)
  unfolding diagnose
  diagnose-step o (ok vm) = search step_rules
  diagnose-step o (err x) = search step_rules

  pub diagnostics-step : (o : Owner) → Moves WorldStep (diagnostics e o)
  unfolding diagnostics
  diagnostics-step o = search (step_rules, get_vm_of-step, diagnose-step) depth 10

  pub health-step : Moves WorldStep (health e)
  unfolding health
  health-step = search step_rules depth 12

  digest_all-step : (paths : List String) → Moves WorldStep (digest_all e paths)
  unfolding digest_all
  digest_all-step [] = search step_rules
  digest_all-step (path ∷ paths) =
      Moves-bind world_order _ _ (search step_rules) (λ digest.
        Moves-bind world_order _ _ (digest_all-step paths) (λ digests. search step_rules))

  finish-step :
      (m : Mutation) (kind : String) (op : Operation) (r : ArtifactResult)
      → Moves WorldStep (finish e m kind op r)
  unfolding finish
  finish-step m kind op r = search (step_rules, complete-WorldStep)

  check_one-step : (r : ArtifactResult) → Moves WorldStep (check_one e r)
  unfolding check_one
  check_one-step r = search step_rules

  root_disk_by-step :
      (st : OperationState) (m : Mutation) (name image : String) (op : Operation)
      → Moves WorldStep (root_disk_by e st m name image op)
  unfolding root_disk_by
  root_disk_by-step completed m name image op = search (step_rules, check_one-step)
  root_disk_by-step intent m name image op =
      search (step_rules, digest_all-step, finish-step) depth 10
  root_disk_by-step failed m name image op =
      search (step_rules, digest_all-step, finish-step) depth 10

  begin_stored-step : (m : Mutation) (kind : String) → Moves WorldStep (begin_stored e m kind)
  unfolding begin_stored
  begin_stored-step m kind = search (step_rules, begin-WorldStep)

  pub prepare_root_disk-step :
      (m : Mutation) (req : RootDiskRequest) → Moves WorldStep (prepare_root_disk e m req)
  unfolding prepare_root_disk
  prepare_root_disk-step m req = search (step_rules, begin_stored-step, root_disk_by-step) depth 12

  cidata_by-step :
      (st : OperationState) (m : Mutation) (name : String) (files : List ArtifactFile)
      (op : Operation)
      → Moves WorldStep (cidata_by e st m name files op)
  unfolding cidata_by
  cidata_by-step completed m name files op = search step_rules
  cidata_by-step intent m name files op = search (step_rules, finish-step) depth 10
  cidata_by-step failed m name files op = search (step_rules, finish-step) depth 10

  pub prepare_cidata-step :
      (m : Mutation) (name : String) (files : List ArtifactFile)
      → Moves WorldStep (prepare_cidata e m name files)
  unfolding prepare_cidata
  prepare_cidata-step m name files = search (step_rules, begin_stored-step, cidata_by-step) depth 12

  confext_by-step :
      (st : OperationState) (m : Mutation) (name : String) (files : List ArtifactFile)
      (op : Operation)
      → Moves WorldStep (confext_by e st m name files op)
  unfolding confext_by
  confext_by-step completed m name files op = search step_rules
  confext_by-step intent m name files op =
      search (step_rules, digest_all-step, finish-step) depth 14
  confext_by-step failed m name files op =
      search (step_rules, digest_all-step, finish-step) depth 14

  pub prepare_confext-step :
      (m : Mutation) (name : String) (files : List ArtifactFile)
      → Moves WorldStep (prepare_confext e m name files)
  unfolding prepare_confext
  prepare_confext-step m name files =
      search (step_rules, begin_stored-step, confext_by-step) depth 12
