-- ===== src/ControlPlane/Runs.antt =====
-- Many reconciles of controllers/hypervisorcontrolplane_controller.go, with anything in between that keeps
-- the files of the state directory and the replacement in the status: that directory is the
-- provider's own, and the status is written by this controller only.
use cluster_api_hypervisor.Common.{
  String, Bool, true, false, ◌≡◌, ◌⊎◌, inl, inr, sym, subst, Option, none, some, List, [], ◌∷◌,
  find, Option-cases,
}
use cluster_api_hypervisor.Exec.{continue, pure, ◌>>=◌}
use cluster_api_hypervisor.ControlPlane.{Replacement, Plane, Machine}
use cluster_api_hypervisor.ControlPlane.Server.{World, Reconciler, call, run_call, named, get_plane}
use cluster_api_hypervisor.ControlPlane.Versions.{control_plane_machine_index}
use cluster_api_hypervisor.ControlPlane.Machines.{is_surplus}
use cluster_api_hypervisor.ControlPlane.Reconcile.{wanted, reconcile_plane, reconcile_control_plane}
use cluster_api_hypervisor.ControlPlane.Steps.{IsFiled, replacement_of}
use cluster_api_hypervisor.ControlPlane.Safety.{
  IsSnapshotted, reconcile-IsFiled, reconcile-IsSnapshotted,
}

abbrev stored_replacement : {S : Type 0} → World S → Option Replacement
stored_replacement w = replacement_of w.objects.plane

module _ {S : Type 0} (e : Reconciler S) where
  -- A run of the controller: reconciles, and changes by others.
  pub data Run (u : World S) : World S → Type 0 where
    stop : Run u u
    reconciled : (w : World S) → Run u w → Run u (reconcile_control_plane e w).1
    changed :
        (w v : World S)
        → Run u w
        → stored_replacement v ≡ stored_replacement w
        → ((r : Option Replacement) → IsFiled r w.files → IsFiled r v.files)
        → Run u v

  abbrev Filed : World S → Type 0
  Filed w = IsFiled (stored_replacement w) w.files

  nothing_filed : (w : World S) → w.objects.plane ≡ none → Filed w
  nothing_filed w h = subst (λ x. IsFiled (replacement_of x) w.files) (sym h) tt

  -- Without a control plane nothing is done.
  idle_from :
      (w : World S) (faults : List Bool)
      → w.objects.plane ≡ none
      → Filed (reconcile_plane e w.objects.plane (record w { faults = faults })).1
  unfolding reconcile_plane pure
  idle_from w faults h =
      let v = record w { faults = faults } in
      subst (λ x. Filed (reconcile_plane e x v).1) (sym h) (nothing_filed v h)

  idle :
      (w : World S) (faults : List Bool)
      → w.objects.plane ≡ none
      → Filed
          (continue
            (run_call faults (λ o. (o.plane, o)) w).0
            (reconcile_plane e)
            (run_call faults (λ o. (o.plane, o)) w).1).1
  idle w [] h = idle_from w [] h
  idle w (true ∷ later) h = nothing_filed (record w { faults = later }) h
  idle w (false ∷ later) h = idle_from w later h

  reconcile-idle : (w : World S) → w.objects.plane ≡ none → Filed (reconcile_control_plane e w).1
  unfolding reconcile_control_plane get_plane call ◌>>=◌
  reconcile-idle w h = idle w w.faults h

  reconcile-Filed : (w : World S) → Filed w → Filed (reconcile_control_plane e w).1
  reconcile-Filed w h = elim (Option-cases w.objects.plane) [
    | inl none_there ↦ reconcile-idle w none_there
    | inr (p, there) ↦
        reconcile-IsFiled e p w there (subst (λ x. IsFiled (replacement_of x) w.files) there h)
  ]

  run-Filed : (u v : World S) → stored_replacement u ≡ none → Run u v → Filed v
  run-Filed u _ h stop = subst (λ r. IsFiled r u.files) (sym h) tt
  run-Filed u _ h (reconciled w run) = reconcile-Filed w (run-Filed u w h run)
  run-Filed u _ h (changed w v run same more) =
      subst (λ r. IsFiled r v.files) (sym same) (more _ (run-Filed u w h run))

  -- In every run from a control plane that records no replacement, between whose reconciles others
  -- change neither the recorded replacement nor remove a file of the state directory: a reconcile
  -- that finds a Machine of a wanted replica leaves it as it is, however the reconcile ends, unless
  -- the status had recorded the replacement of that Machine by one of the wanted version; the file of
  -- its etcd snapshot is then on disk afterwards.
  pub run-IsSnapshotted :
      (u w : World S) (p : Plane) (name : String) (m : Machine)
      → stored_replacement u ≡ none
      → Run u w
      → w.objects.plane ≡ some p
      → is_surplus e (wanted p.spec.replicas) (control_plane_machine_index e name p.name) ≡ false
      → find (named name) w.objects.machines ≡ some m
      → (find (named name) (reconcile_control_plane e w).1.objects.machines ≡ some m)
        ⊎ IsSnapshotted e p name (reconcile_control_plane e w).1
  run-IsSnapshotted u w p name m fresh run there wanted_replica found =
      reconcile-IsSnapshotted e p w name m there
        (subst (λ x. IsFiled (replacement_of x) w.files) there (run-Filed u w fresh run))
        wanted_replica found
