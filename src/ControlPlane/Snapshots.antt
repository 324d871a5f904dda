-- ===== src/ControlPlane/Snapshots.antt =====
-- The steps of a replacement in controllers/hypervisorcontrolplane_controller.go: a snapshot is on disk
-- before it is recorded, and a Machine is deleted only where one is recorded.
use cluster_api_hypervisor.Common.{
  ℕ, String, Bool, true, false, not, ◌≡◌, inl, refl, sym, subst, Option, none, some, List, [], ◌∷◌,
  ◌==◌, arith, eq_iff, eq_refl, exists_row, delete, if◌then◌else◌,
}
use cluster_api_hypervisor.Exec.{
  Error, other, Result, ok, err, Exec, pure, raise, continue, ◌>>=◌, ◌>>◌,
}
use cluster_api_hypervisor.Exec.Rules.{Moves, Moves-branch, Moves-bind}
use cluster_api_hypervisor.ControlPlane.{
  Replacement, Plane, PlaneStatus, Cluster, Machine, Config, HypervisorMachine,
}
use cluster_api_hypervisor.ControlPlane.Server.{
  World, Reconciler, Call, call, run_call, update_status, write_file,
}
use cluster_api_hypervisor.ControlPlane.Versions.{
  requeue, recorded, snapshot_path, is_recorded, write_etcd_snapshot, record_snapshot, capture_at,
  capture_from, capture_by, capture_replacement_snapshot, delete_found_config,
  delete_found_hypervisor_machine, delete_replaced_machine, replace_machine,
}
use cluster_api_hypervisor.ControlPlane.Reconcile.{wanted}
use cluster_api_hypervisor.ControlPlane.Steps.{
  IsFiled, PlaneStep, plane_order, plane_rules, update_status-PlaneStep, delete_machine-PlaneStep,
}

written_over :
    (path wanted bytes : String) (files : List (String × String))
    → exists_row (λ f. f.0 == wanted) files ≡ true
    → exists_row (λ f. f.0 == wanted) ((path, bytes) ∷ delete (λ f. f.0 == path) files) ≡ true
unfolding exists_row delete
written_over path wanted bytes [] h = ground arith
written_over path wanted bytes (f ∷ files) h =
    ground (arith, eq_iff f.0 path, written_over path wanted bytes files)

-- A file that is written leaves no other one out.
IsFiled-write :
    (r : Option Replacement) (path bytes : String) (files : List (String × String))
    → IsFiled r files
    → IsFiled r ((path, bytes) ∷ delete (λ f. f.0 == path) files)
IsFiled-write none path bytes files h = tt
IsFiled-write (some r) path bytes files h = written_over path r.snapshot_path bytes files h

written_there :
    (path bytes : String) (files : List (String × String))
    → exists_row (λ f. f.0 == path) ((path, bytes) ∷ files) ≡ true
unfolding exists_row
written_there path bytes files = ground (arith, eq_refl path)

run_call-files :
    {S A : Type 0} (faults : List Bool) (c : Call A) (w : World S)
    → (run_call faults c w).1.files ≡ w.files
run_call-files [] c w = refl
run_call-files (true ∷ later) c w = refl
run_call-files (false ∷ later) c w = refl

module _ {S : Type 0} (e : Reconciler S) (guarded : String → Bool) (r : Option Replacement) where
  -- The record of a snapshot, after its file was written.
  module _ (status : PlaneStatus) (path bytes : String) (name version : String)
      (records : status.replacement
        ≡ some record { machine_name = name; target_version = version; snapshot_path = path }) where
    abbrev taken : Option Replacement
    taken = some record { machine_name = name; target_version = version; snapshot_path = path }

    update_files : (w : World S) → (update_status status w).1.files ≡ w.files
    unfolding update_status call
    update_files w = run_call-files w.faults _ w

    recorded-PlaneStep :
        (w : World S) → PlaneStep guarded r w (update_status status (write_file path bytes w).1).1
    unfolding write_file
    recorded-PlaneStep w =
        let v = (write_file path bytes w).1 in
        let step = (update_status-PlaneStep guarded taken status (inl records)).at v in
        record {
          kept = λ n m g h. step.kept n m g h;
          filed = λ h. record {
            read =
                subst (λ fs. IsFiled r fs) (sym (update_files v))
                  (IsFiled-write r path bytes w.files h.read);
            stored =
                (step.filed record {
                  read = written_there path bytes (delete (λ f. f.0 == path) w.files);
                  stored = IsFiled-write _ path bytes w.files h.stored;
                }).stored;
          };
        }

  -- An action after a file was written, where it can be.
  after_write :
      {B : Type 0} (x y : Error) (b c : Bool) (path bytes : String) (f : String → Exec (World S) B)
      → ((w : World S) → PlaneStep guarded r w (f path (write_file path bytes w).1).1)
      → Moves
          (PlaneStep guarded r)
          ((if b then raise x else if c then raise y else write_file path bytes >> pure path) >>= f)
  unfolding ◌>>=◌ write_file
  after_write x y true c path bytes f k = record { at = λ w. (plane_order guarded r).at_rest w }
  after_write x y false true path bytes f k = record { at = λ w. (plane_order guarded r).at_rest w }
  after_write x y false false path bytes f k = record { at = k }

  pure_after :
      {A B : Type 0} (m : Exec (World S) A) (b : B) (w v : World S)
      → PlaneStep guarded r v (m w).1
      → PlaneStep guarded r v ((m >>= λ _. pure b) w).1
  unfolding ◌>>=◌
  pure_after {A = A} m b w v k = at_end (m w).0 (m w).1 k
    where
      at_end :
          (x : Result A) (s : World S)
          → PlaneStep guarded r v s
          → PlaneStep guarded r v (continue x (λ _. pure b) s).1
      at_end (ok a) s g = g
      at_end (err x) s g = g

  record_snapshot-step :
      (p : Plane) (c : Cluster) (m : Machine) (snapshot : String)
      → Moves (PlaneStep guarded r) (record_snapshot e p c m snapshot)
  unfolding record_snapshot write_etcd_snapshot
  record_snapshot-step p c m snapshot =
      let path = snapshot_path e c.name m.name p.spec.version in
      after_write (other "state dir") (other "write etcd snapshot") (e.state_dir == "")
        (not (e.can_write path)) path snapshot
        (λ q. update_status (recorded m q p).status >>= λ _. pure (requeue, recorded m q p))
        (λ w.
          pure_after (update_status (recorded m path p).status) (requeue, recorded m path p)
            (write_file path snapshot w).1 w
            (recorded-PlaneStep (recorded m path p).status path snapshot m.name p.spec.version refl
              w))

  capture_at-step :
      (capture : String → ℕ → Exec S String) (p : Plane) (c : Cluster) (m : Machine)
      (port : Option ℕ)
      → Moves (PlaneStep guarded r) (capture_at e capture p c m port)
  unfolding capture_at
  capture_at-step capture p c m none = search plane_rules
  capture_at-step capture p c m (some port) = search (plane_rules, record_snapshot-step)

  capture_from-step :
      (capture : String → ℕ → Exec S String) (p : Plane) (c : Cluster) (m : Machine)
      (h : Option HypervisorMachine)
      → Moves (PlaneStep guarded r) (capture_from e capture p c m h)
  unfolding capture_from
  capture_from-step capture p c m none = search plane_rules
  capture_from-step capture p c m (some h) = capture_at-step capture p c m _

  capture_by-step :
      (capture : Option (String → ℕ → Exec S String)) (p : Plane) (c : Cluster) (m : Machine)
      → Moves (PlaneStep guarded r) (capture_by e capture p c m)
  unfolding capture_by
  capture_by-step none p c m = search plane_rules
  capture_by-step (some capture) p c m = search (plane_rules, capture_from-step)

  delete_config-step : (c : Option Config) → Moves (PlaneStep guarded r) (delete_found_config e c)
  delete_config-step none = search plane_rules
  delete_config-step (some c) = search plane_rules

  delete_hm-step :
      (h : Option HypervisorMachine)
      → Moves (PlaneStep guarded r) (delete_found_hypervisor_machine e h)
  delete_hm-step none = search plane_rules
  delete_hm-step (some h) = search plane_rules

  delete_replaced-step :
      (m : Machine)
      → guarded m.name ≡ false
      → Moves (PlaneStep guarded r) (delete_replaced_machine e m)
  unfolding delete_replaced_machine
  delete_replaced-step m free =
      search
        (
          plane_rules,
          delete_machine-PlaneStep guarded r m.name free,
          delete_config-step,
          delete_hm-step,
        )
        depth 12

  pub replace_machine-step :
      (p : Plane) (c : Cluster) (m : Machine)
      → (is_recorded e p.status.replacement m.name p.spec.version ≡ true → guarded m.name ≡ false)
      → Moves (PlaneStep guarded r) (replace_machine e p c m)
  unfolding replace_machine capture_replacement_snapshot
  replace_machine-step p c m free =
      Moves-branch (is_recorded e p.status.replacement m.name p.spec.version) _ _
        (λ h.
          Moves-bind (plane_order guarded r) _ _ (delete_replaced-step m (free h))
            (λ _. search plane_rules))
        (λ _. capture_by-step e.capture_etcd_snapshot p c m)
