-- ===== src/Executor/VmLaws.antt =====
-- StopVM and DeleteVM of internal/agent/executor/executor.go: what they do to the journal, and what
-- DeleteVM leaves.
use cluster_api_hypervisor.Common.{
  String, Bool, true, false, ◌≡◌, refl, subst, Option, none, some, List, [], ◌∷◌, not, find,
  find-delete_self, ◌==◌,
}
use cluster_api_hypervisor.Exec.{Result, ok, err, attempt, unauthorized}
use cluster_api_hypervisor.Exec.Rules.{Moves}
use cluster_api_hypervisor.Exec.Triple.{
  Triple-any, Triple, Triple-pure, Triple-raise, Triple-if, Triple-bind,
}
use cluster_api_hypervisor.HostAgent.{Mutation}
use cluster_api_hypervisor.Inventory.{
  OperationState, intent, completed, failed, Operation, Vm, Tables, Store, statement, run_with,
}
use cluster_api_hypervisor.Inventory.Steps.{Triple-statement}
use cluster_api_hypervisor.Inventory.JournalSteps.{JournalStep}
use cluster_api_hypervisor.Inventory.Resources.{
  has_vm_key, scan, get_vm, read_vm, delete_vm, drop_vm,
}
use cluster_api_hypervisor.Executor.{Executor, World, on_store, is_no_rows}
use cluster_api_hypervisor.Executor.Steps.{
  WorldStep, step_rules, other_table, begin-WorldStep, complete-WorldStep,
}
use cluster_api_hypervisor.Executor.PortJournal.{delete_port-step}
use cluster_api_hypervisor.Executor.Triples.{tables_of, Triple-on_store}
use cluster_api_hypervisor.Executor.Vms.{
  after_shutdown, after_stop, stop_found, stop_by, stop_vm, delete_found, delete_vm_of,
}

pub get_vm-step : (i u : String) → Moves JournalStep (get_vm i u)
unfolding get_vm read_vm
get_vm-step i u = other_table _ (λ t. refl)

delete_row-step : (i u : String) → Moves JournalStep (delete_vm i u)
unfolding delete_vm drop_vm
delete_row-step i u = other_table _ (λ t. refl)

module _ {N H : Type 0} (e : Executor N H) (m : Mutation) where
  after_shutdown-step : (vm : Vm) (r : Result (Unit {0})) → Moves WorldStep (after_shutdown e vm r)
  unfolding after_shutdown
  after_shutdown-step vm (ok _) = search step_rules
  after_shutdown-step vm (err x) = search step_rules

  after_stop-step : (op : Operation) (r : Result (Unit {0})) → Moves WorldStep (after_stop e m op r)
  unfolding after_stop
  after_stop-step op (ok _) = search (step_rules, complete-WorldStep)
  after_stop-step op (err x) = search (step_rules, complete-WorldStep)

  stop_found-step : (op : Operation) (r : Result Vm) → Moves WorldStep (stop_found e m op r)
  unfolding stop_found
  stop_found-step op (ok vm) = search (step_rules, after_shutdown-step, after_stop-step) depth 12
  stop_found-step op (err x) = search (step_rules, complete-WorldStep)

  stop_by-step : (st : OperationState) (op : Operation) → Moves WorldStep (stop_by e st m op)
  unfolding stop_by
  stop_by-step completed op = search step_rules
  stop_by-step failed op = search step_rules
  stop_by-step intent op = search (step_rules, get_vm-step, stop_found-step) depth 10

  -- However StopVM ends, no row leaves the journal, each keeps its request, a row with an outcome
  -- is unchanged, and keys stay unique.
  pub stop_vm-step : Moves WorldStep (stop_vm e m)
  unfolding stop_vm
  stop_vm-step = search (step_rules, begin-WorldStep, stop_by-step) depth 12

  delete_found-step : (r : Result Vm) → Moves WorldStep (delete_found e m r)
  unfolding delete_found
  delete_found-step (err x) = search step_rules
  delete_found-step (ok vm) = search (step_rules, delete_port-step, delete_row-step) depth 12

  -- However DeleteVM ends, no row leaves the journal, each keeps its request, a row with an outcome
  -- is unchanged, and keys stay unique.
  pub delete_vm-step : Moves WorldStep (delete_vm_of e m)
  unfolding delete_vm_of
  delete_vm-step = search (step_rules, stop_vm-step, get_vm-step, delete_found-step) depth 12

-- The inventory has no VM of the owner.
abbrev pub NoVm : String → String → Tables → Type 0
NoVm i u t = find (has_vm_key i u) t.vms ≡ none

-- What GetVM of the inventory says: the row that it finds, or that the owner has none.
abbrev pub AfterVm : String → String → Result Vm → Tables → Type 0
AfterVm i u (ok vm) t = find (has_vm_key i u) t.vms ≡ some vm
AfterVm i u (err x) t = is_no_rows x ≡ true → NoVm i u t

scan-AfterVm :
    (i u : String) (t : Tables) (o : Option Vm)
    → find (has_vm_key i u) t.vms ≡ o
    → AfterVm i u (scan o) t
scan-AfterVm i u t none e = λ _. e
scan-AfterVm i u t (some vm) e = e

run-AfterVm :
    (i u : String) (faults : List Bool) (s : Store)
    → AfterVm i u (run_with faults (read_vm i u) s).0 (run_with faults (read_vm i u) s).1.tables
unfolding read_vm is_no_rows
run-AfterVm i u [] s = scan-AfterVm i u s.tables _ refl
run-AfterVm i u (true ∷ later) s = λ e. absurd (cc)
run-AfterVm i u (false ∷ later) s = scan-AfterVm i u s.tables _ refl

module _ {N H : Type 0} (e : Executor N H) (m : Mutation) where
  abbrev inst : String
  inst = m.owner.installation_id

  abbrev uid : String
  uid = m.owner.uid

  pub get_vm-post :
      Triple
        (λ (w : World N H). Unit)
        (attempt (on_store (get_vm inst uid)))
        (λ r w. AfterVm inst uid r (tables_of w))
  unfolding attempt on_store get_vm statement
  get_vm-post = record {
    at = λ w _ r x.
        subst
          (λ y. AfterVm inst uid y (run_with w.store.faults (read_vm inst uid) w.store).1.tables)
          (cc) (run-AfterVm inst uid w.store.faults w.store);
  }

  delete_row-post : Triple (λ s. Unit) (delete_vm inst uid) (λ _ s. NoVm inst uid s.tables)
  unfolding delete_vm drop_vm
  delete_row-post =
      Triple-statement (drop_vm inst uid) (λ _. Unit) (λ _ t. NoVm inst uid t)
        (λ t _ a x. find-delete_self (has_vm_key inst uid) t.vms)

  delete_found-post :
      (r : Result Vm)
      → Triple
          (λ (w : World N H). AfterVm inst uid r (tables_of w))
          (delete_found e m r)
          (λ _ w. NoVm inst uid (tables_of w))
  unfolding delete_found
  delete_found-post (err x) =
      Triple-if _ _ _ (λ h. Triple-pure tt (λ w k. k h)) (λ _. Triple-raise x)
  delete_found-post (ok vm) =
      Triple-if (not (vm.node_id == m.owner.node_id)) _ _ (λ _. Triple-raise unauthorized)
        λ _.
          Triple-bind (λ _ _. Unit) _ _ (Triple-any _)
            λ _.
              Triple-bind (λ _ _. Unit) _ _ (Triple-any _)
                λ _. Triple-on_store (λ _. Unit) _ _ delete_row-post

  -- After a DeleteVM that returns no error, the inventory has no VM of the caller's UID, whatever
  -- Cloud Hypervisor, systemd, k8netd and SQLite answered on the way.
  pub delete_vm-NoVm :
      (w : World N H)
      → (delete_vm_of e m w).0 ≡ ok tt
      → NoVm m.owner.installation_id m.owner.uid (delete_vm_of e m w).1.store.tables
  unfolding delete_vm_of
  delete_vm-NoVm w x = whole.at w tt tt x
    where
      whole :
          Triple (λ (w : World N H). Unit) (delete_vm_of e m) (λ _ w. NoVm inst uid (tables_of w))
      whole =
          Triple-bind (λ _ _. Unit) _ _ (Triple-any _)
            λ _.
              Triple-bind (λ _ _. Unit) _ _ (Triple-any _)
                λ _. Triple-bind _ _ _ get_vm-post (λ r. delete_found-post r)
