-- ===== src/Executor/EnsureLaws.antt =====
-- What a successful EnsureVM of internal/agent/executor/executor.go leaves in the inventory.
use cluster_api_hypervisor.Common.{
  String, true, not, ◌||◌, ◌==◌, ◌≡◌, refl, sym, subst, some, List, [], ◌∷◌, arith, eq_refl, eq_iff,
  find, update, exists_row, find-append_none, find-none_of_exists,
}
use cluster_api_hypervisor.Exec.{
  Result, ok, err, not_found, unauthorized, unavailable, invalid_request,
}
use cluster_api_hypervisor.Exec.Triple.{
  Triple-any, Triple, Triple-pure, Triple-raise, Triple-if, Triple-bind,
}
use cluster_api_hypervisor.HostAgent.{Mutation, VmDesired, VmObserved}
use cluster_api_hypervisor.Inventory.{
  OperationState, intent, completed, failed, Operation, Vm, Tables,
}
use cluster_api_hypervisor.Inventory.Steps.{Triple-statement}
use cluster_api_hypervisor.Inventory.JournalSteps.{complete_operation-SameOthers}
use cluster_api_hypervisor.Inventory.Resources.{has_vm_key, upsert_vm, put_vm}
use cluster_api_hypervisor.Executor.{Executor, World, on_machine}
use cluster_api_hypervisor.Executor.Journal.{complete}
use cluster_api_hypervisor.Executor.Triples.{tables_of, Triple-on_store}
use cluster_api_hypervisor.Executor.Vms.{observe_vm, get_vm_of}
use cluster_api_hypervisor.Executor.VmLaws.{AfterVm, get_vm-post}
use cluster_api_hypervisor.Executor.EnsureVm.{
  with_firmware, is_unequipped, is_incomplete, has_empty, vm_row, start_vm, ensure_by,
  ensure_desired, ensure_vm,
}

has_own_key : (v : Vm) → has_vm_key v.installation_id v.owner_uid v ≡ true
unfolding has_vm_key
has_own_key v = ground (arith, eq_refl v.installation_id, eq_refl v.owner_uid)

find-update_vm :
    (v : Vm) (rows : List Vm)
    → exists_row (has_vm_key v.installation_id v.owner_uid) rows ≡ true
    → find
        (has_vm_key v.installation_id v.owner_uid)
        (update (has_vm_key v.installation_id v.owner_uid) (λ _. v) rows)
      ≡ some v
unfolding find update exists_row
find-update_vm v [] h = ground arith
find-update_vm v (x ∷ rows) h = ground (arith, has_own_key v, find-update_vm v rows)

find_one_vm : (v : Vm) → find (has_vm_key v.installation_id v.owner_uid) (v ∷ []) ≡ some v
unfolding find
find_one_vm v = ground (arith, has_own_key v)

-- After a successful statement of UpsertVM, a search by its key finds what was written.
pub put_vm-found :
    (v : Vm) (t : Tables) (a : Unit {0})
    → (put_vm v t).0 ≡ ok a
    → find (has_vm_key v.installation_id v.owner_uid) (put_vm v t).1.vms ≡ some v
unfolding put_vm
put_vm-found v t a h = ground (
  arith,
  find-update_vm v t.vms,
  find-append_none (has_vm_key v.installation_id v.owner_uid) t.vms (v ∷ []),
  find-none_of_exists (has_vm_key v.installation_id v.owner_uid) t.vms,
  find_one_vm v,
)

upsert_vm-post :
    (v : Vm)
    → Triple
        (λ s. Unit)
        (upsert_vm v)
        (λ _ s. find (has_vm_key v.installation_id v.owner_uid) s.vms ≡ some v)
unfolding upsert_vm
upsert_vm-post v =
    Triple-statement (put_vm v) (λ _. Unit)
      (λ _ t. find (has_vm_key v.installation_id v.owner_uid) t.vms ≡ some v)
      (λ t _ a e. put_vm-found v t a e)

-- The inventory has a VM of the caller's UID on the caller's node, with what is observed of it.
pub record IsRecorded (m : Mutation) (seen : VmObserved) (t : Tables) : Type 0 where
  pub row : Vm
  pub found : find (has_vm_key m.owner.installation_id m.owner.uid) t.vms ≡ some row
  pub own_node : row.node_id ≡ m.owner.node_id
  pub same_unit : row.unit ≡ seen.unit
  pub same_api : row.api_socket ≡ seen.api_socket
  pub same_vhost : row.vhost_socket ≡ seen.vhost_socket
  pub same_mac : row.mac ≡ seen.mac
  pub same_ip : row.ip ≡ seen.ip
  pub same_generation : row.generation ≡ seen.generation

module _ {N H : Type 0} (e : Executor N H) (m : Mutation) where
  observe_vm-post :
      (r : Result Vm)
      → Triple
          (λ (w : World N H). AfterVm m.owner.installation_id m.owner.uid r (tables_of w))
          (observe_vm e m.owner r)
          (λ seen w. IsRecorded m seen (tables_of w))
  unfolding observe_vm on_machine
  observe_vm-post (err x) = Triple-if _ _ _ (λ _. Triple-raise not_found) (λ _. Triple-raise x)
  observe_vm-post (ok vm) =
      Triple-if (not (vm.node_id == m.owner.node_id)) _ _ (λ _. Triple-raise unauthorized)
        λ own.
          Triple-bind
            (λ _ w.
              find (has_vm_key m.owner.installation_id m.owner.uid) (tables_of w).vms ≡ some vm)
            _ _ (record { at = λ w h a x. h })
            λ pid. Triple-pure _ λ w h. record {
              row = vm;
              found = h;
              own_node = ground (arith, eq_iff vm.node_id m.owner.node_id);
              same_unit = refl;
              same_api = refl;
              same_vhost = refl;
              same_mac = refl;
              same_ip = refl;
              same_generation = refl;
            }

  get_vm_of-post :
      Triple
        (λ (w : World N H). Unit)
        (get_vm_of e m.owner)
        (λ seen w. IsRecorded m seen (tables_of w))
  unfolding get_vm_of
  get_vm_of-post =
      Triple-bind (λ _ _. Unit) _ _ (Triple-any _)
        λ _.
          Triple-if (not e.has_store || not e.has_systemd) _ _ (λ _. Triple-raise unavailable)
            (λ _. Triple-bind _ _ _ (get_vm-post e m) (λ r. observe_vm-post r))

  -- `complete` leaves the VMs alone.
  complete-vms :
      (Q : List Vm → Type 0) (op : Operation) (state : OperationState) (kind text failure : String)
      → Triple
          (λ (w : World N H). Q (tables_of w).vms)
          (complete m kind op.request_hash state text failure)
          (λ _ w. Q (tables_of w).vms)
  unfolding complete
  complete-vms Q op state kind text failure =
      Triple-on_store (λ s. Q s.vms) _ (λ _ s. Q s.vms)
        (record {
          at = λ s h a x.
              subst Q (sym ((complete_operation-SameOthers _ _ _ _).at s).tables_moved.same_vms) h;
        })

  start_vm-post :
      (d : VmDesired) (op : Operation)
      → Triple
          (λ (w : World N H). Unit)
          (start_vm e m d op)
          (λ seen w. IsRecorded m seen (tables_of w))
  unfolding start_vm
  start_vm-post d op =
      Triple-bind (λ _ _. Unit) _ _ (Triple-any _)
        λ _.
          Triple-bind (λ _ _. Unit) _ _ (Triple-any _)
            λ pid.
              Triple-bind (λ _ _. Unit) _ _ (Triple-any _)
                λ _.
                  Triple-if (has_empty d.additional_disks) _ _ (λ _. Triple-raise invalid_request)
                    λ _.
                      Triple-bind (λ _ _. Unit) _ _ (Triple-any _)
                        λ _.
                          Triple-bind _ _ _
                            (Triple-on_store (λ _. Unit) _ _ (upsert_vm-post (vm_row m d pid)))
                            λ _.
                              Triple-bind _ _ _
                                (complete-vms
                                  (λ vms.
                                    find (has_vm_key m.owner.installation_id m.owner.uid) vms
                                    ≡ some (vm_row m d pid))
                                  op _ _ _ _)
                                λ _. Triple-pure _ λ w h. record {
                                  row = vm_row m d pid;
                                  found = h;
                                  own_node = refl;
                                  same_unit = refl;
                                  same_api = refl;
                                  same_vhost = refl;
                                  same_mac = refl;
                                  same_ip = refl;
                                  same_generation = refl;
                                }

  ensure_by-post :
      (st : OperationState) (d : VmDesired) (op : Operation)
      → Triple
          (λ (w : World N H). Unit)
          (ensure_by e st m d op)
          (λ seen w. IsRecorded m seen (tables_of w))
  unfolding ensure_by
  ensure_by-post completed d op = get_vm_of-post
  ensure_by-post intent d op = start_vm-post d op
  ensure_by-post failed d op = start_vm-post d op

  ensure_desired-post :
      (d : VmDesired)
      → Triple
          (λ (w : World N H). Unit)
          (ensure_desired e m d)
          (λ seen w. IsRecorded m seen (tables_of w))
  unfolding ensure_desired
  ensure_desired-post d =
      Triple-if (is_unequipped e) _ _ (λ _. Triple-raise unavailable)
        λ _.
          Triple-if (is_incomplete d) _ _ (λ _. Triple-raise invalid_request)
            λ _. Triple-bind (λ _ _. Unit) _ _ (Triple-any _) (λ op. ensure_by-post op.state d op)

  -- After an EnsureVM that returns a VM, whether it was started or had been by the same request
  -- before, the inventory has a VM of the caller's UID on the caller's node, with the unit, sockets,
  -- addresses and generation that are returned.
  pub ensure_vm-IsRecorded :
      (d : VmDesired) (w : World N H) (seen : VmObserved)
      → (ensure_vm e m d w).0 ≡ ok seen
      → IsRecorded m seen (tables_of (ensure_vm e m d w).1)
  unfolding ensure_vm
  ensure_vm-IsRecorded d w seen x =
      (Triple-bind {P = λ (w' : World N H). Unit} (λ _ _. Unit) _ _ (Triple-any _)
          (λ _. ensure_desired-post (with_firmware e.manifest d))).at
        w tt seen x
