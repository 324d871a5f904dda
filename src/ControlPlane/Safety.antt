-- ===== src/ControlPlane/Safety.antt =====
-- What a reconcile of controllers/hypervisorcontrolplane_controller.go must not do: lose a Machine that no
-- snapshot was recorded for, or the snapshot.
use cluster_api_hypervisor.Common.{
  String, Bool, true, false, ◌≡◌, ◌⊎◌, inl, inr, Bool-cases, refl, sym, subst, Option, none, some,
  List, [], ◌∷◌, arith, eq_iff, find,
}
use cluster_api_hypervisor.Exec.{continue, ◌>>=◌}
use cluster_api_hypervisor.ControlPlane.{Replacement, Plane, Machine}
use cluster_api_hypervisor.ControlPlane.Server.{World, Reconciler, call, run_call, named, get_plane}
use cluster_api_hypervisor.ControlPlane.Versions.{control_plane_machine_index, is_recorded}
use cluster_api_hypervisor.ControlPlane.Machines.{is_surplus}
use cluster_api_hypervisor.ControlPlane.Reconcile.{wanted, reconcile_plane, reconcile_control_plane}
use cluster_api_hypervisor.ControlPlane.Steps.{
  IsFiled, replacement_of, HasFiles, PlaneStep, plane_order, next_call,
}
use cluster_api_hypervisor.ControlPlane.Guards.{is_guarded, reconcile_plane-step}

module _ {S : Type 0} (e : Reconciler S) (p : Plane) where
  from_read :
      (w : World S) (faults : List Bool)
      → w.objects.plane ≡ some p
      → PlaneStep
          (is_guarded e p)
          p.status.replacement
          w
          (reconcile_plane e w.objects.plane (record w { faults = faults })).1
  from_read w faults h =
      let v = record w { faults = faults } in
      subst (λ x. PlaneStep (is_guarded e p) p.status.replacement w (reconcile_plane e x v).1)
        (sym h)
        ((plane_order (is_guarded e p) p.status.replacement).through w v _
          (next_call (is_guarded e p) p.status.replacement w faults)
          ((reconcile_plane-step e p).at v))

  -- A whole reconcile, after the call that reads the control plane.
  run_reconcile :
      (faults : List Bool) (w : World S)
      → w.objects.plane ≡ some p
      → PlaneStep
          (is_guarded e p)
          p.status.replacement
          w
          (continue
            (run_call faults (λ o. (o.plane, o)) w).0
            (reconcile_plane e)
            (run_call faults (λ o. (o.plane, o)) w).1).1
  run_reconcile [] w h = from_read w [] h
  run_reconcile (true ∷ later) w h = next_call (is_guarded e p) p.status.replacement w later
  run_reconcile (false ∷ later) w h = from_read w later h

  reconcile-PlaneStep :
      (w : World S)
      → w.objects.plane ≡ some p
      → PlaneStep (is_guarded e p) p.status.replacement w (reconcile_control_plane e w).1
  unfolding reconcile_control_plane get_plane call ◌>>=◌
  reconcile-PlaneStep w h = run_reconcile w.faults w h

  has_files :
      (w : World S)
      → w.objects.plane ≡ some p
      → IsFiled p.status.replacement w.files
      → HasFiles (is_guarded e p) p.status.replacement w
  has_files w h k = record {
    read = k;
    stored = subst (λ x. IsFiled (replacement_of x) w.files) (sym h) k;
  }

  -- The snapshot of the replacement that a control plane's status records is in the state directory: if
  -- it is so before a reconcile, it is so after it, however the reconcile ends.
  pub reconcile-IsFiled :
      (w : World S)
      → w.objects.plane ≡ some p
      → IsFiled p.status.replacement w.files
      → IsFiled
          (replacement_of (reconcile_control_plane e w).1.objects.plane)
          (reconcile_control_plane e w).1.files
  reconcile-IsFiled w h k = ((reconcile-PlaneStep w h).filed (has_files w h k)).stored

  -- The record of a replacement of a Machine, with the file of its snapshot.
  pub record IsSnapshotted (name : String) (w : World S) : Type 0 where
    pub rep : Replacement
    pub recorded : p.status.replacement ≡ some rep
    pub of_machine : rep.machine_name ≡ name
    pub of_version : rep.target_version ≡ p.spec.version
    pub on_disk : IsFiled (some rep) w.files

  snapshot_cases :
      (name : String) (v : World S) (r : Option Replacement)
      → p.status.replacement ≡ r
      → is_recorded e r name p.spec.version ≡ true
      → IsFiled r v.files
      → IsSnapshotted name v
  unfolding is_recorded
  snapshot_cases name v none q h k = absurd (cc)
  snapshot_cases name v (some rep) q h k = record {
    rep = rep;
    recorded = q;
    of_machine = ground (arith, eq_iff rep.machine_name name);
    of_version = ground (arith, eq_iff rep.target_version p.spec.version);
    on_disk = k;
  }

  -- A reconcile that finds a Machine of a wanted replica leaves it as it is, however it ends, unless
  -- the status had recorded the replacement of that Machine by one of the wanted version, whose etcd
  -- snapshot is on disk, and still is afterwards.
  pub reconcile-IsSnapshotted :
      (w : World S) (name : String) (m : Machine)
      → w.objects.plane ≡ some p
      → IsFiled p.status.replacement w.files
      → is_surplus e (wanted p.spec.replicas) (control_plane_machine_index e name p.name) ≡ false
      → find (named name) w.objects.machines ≡ some m
      → (find (named name) (reconcile_control_plane e w).1.objects.machines ≡ some m)
        ⊎ IsSnapshotted name (reconcile_control_plane e w).1
  unfolding is_guarded
  reconcile-IsSnapshotted w name m h k wanted_replica found =
      elim (Bool-cases (is_recorded e p.status.replacement name p.spec.version)) [
        | inl held ↦ inr (
            snapshot_cases name _ p.status.replacement refl held
              ((reconcile-PlaneStep w h).filed (has_files w h k)).read)
        | inr free ↦ inl ((reconcile-PlaneStep w h).kept name m (ground arith) found)
      ]
