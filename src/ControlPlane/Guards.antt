-- ===== src/ControlPlane/Guards.antt =====
-- The steps of a whole reconcile of controllers/hypervisorcontrolplane_controller.go, for the Machines that it
-- must not delete.
use cluster_api_hypervisor.Common.{
  ℕ, String, Bool, true, false, not, ◌&&◌, ◌≡◌, ◌⊎◌, inl, inr, refl, ap, subst, ◌∙◌, Option, none,
  some, arith,
}
use cluster_api_hypervisor.Common.Int.{ℤ}
use cluster_api_hypervisor.Exec.{Exec, pure, ◌>>◌}
use cluster_api_hypervisor.Exec.Rules.{IsPreorder, Moves, Moves-bind_where, Moves-bind, Moves-if}
use cluster_api_hypervisor.Exec.Triple.{Triple-any, Triple, Triple-pure, Triple-bind}
use cluster_api_hypervisor.ControlPlane.{Replacement, Plane, Cluster, Machine}
use cluster_api_hypervisor.ControlPlane.Server.{World, Reconciler, update_status}
use cluster_api_hypervisor.ControlPlane.Versions.{
  Outcome, done, requeue, machine_drifted, control_plane_machine_index, with_replacement,
  is_recorded, clear_if_back, finish_replacement, drift_step, reconcile_version_drift,
}
use cluster_api_hypervisor.ControlPlane.Machines.{is_surplus, scale_status, update_scale_status}
use cluster_api_hypervisor.ControlPlane.Reconcile.{
  wanted, settle, after_drift, reconcile_linked, reconcile_plane,
}
use cluster_api_hypervisor.ControlPlane.Steps.{
  PlaneStep, plane_order, plane_rules, update_status-PlaneStep,
}
use cluster_api_hypervisor.ControlPlane.Snapshots.{replace_machine-step}
use cluster_api_hypervisor.ControlPlane.DriftEnds.{AfterDrift, drift-Drifts}
use cluster_api_hypervisor.ControlPlane.MachineSteps.{
  ensure_replicas-step, scale_down-step, update_scale-step,
}
use cluster_api_hypervisor.ControlPlane.ReadinessSteps.{readiness-step}

module _ {S : Type 0} (e : Reconciler S) (p : Plane) where
  -- The names that a reconcile may not delete a Machine of: of a replica that is wanted, and with no
  -- snapshot recorded for the wanted version.
  unfoldable pub is_guarded : String → Bool
  is_guarded name =
      not (is_surplus e (wanted p.spec.replicas) (control_plane_machine_index e name p.name))
      && not (is_recorded e p.status.replacement name p.spec.version)

  abbrev Safe : {A : Type 0} → Exec (World S) A → Type 0
  Safe m = Moves (PlaneStep is_guarded p.status.replacement) m

  abbrev order : IsPreorder (PlaneStep {S = S} is_guarded p.status.replacement)
  order = plane_order is_guarded p.status.replacement

  surplus_free :
      (name : String)
      → is_surplus e (wanted p.spec.replicas) (control_plane_machine_index e name p.name) ≡ true
      → is_guarded name ≡ false
  unfolding is_guarded
  surplus_free name h = ground arith

  recorded_free :
      (name : String)
      → is_recorded e p.status.replacement name p.spec.version ≡ true
      → is_guarded name ≡ false
  unfolding is_guarded
  recorded_free name h = ground arith

  clear_if_back-step : (m : Option Machine) → Safe (clear_if_back e p m)
  unfolding clear_if_back
  clear_if_back-step none = search plane_rules
  clear_if_back-step (some m) =
      Moves-if (machine_drifted m p.spec.version) (pure (done, p))
        (update_status (with_replacement none p).status >> pure (done, with_replacement none p))
        (search plane_rules)
        (Moves-bind order _ _ (update_status-PlaneStep is_guarded p.status.replacement _ (inr refl))
          (λ _. search plane_rules))

  finish-step : (rep : Option Replacement) → Safe (finish_replacement e p rep)
  unfolding finish_replacement
  finish-step none = search plane_rules
  finish-step (some rep) = search (plane_rules, clear_if_back-step)

  drift_step-step : (c : Cluster) (best : Option (Machine × ℤ)) → Safe (drift_step e p c best)
  unfolding drift_step
  drift_step-step c none = finish-step p.status.replacement
  drift_step-step c (some best) =
      replace_machine-step e is_guarded p.status.replacement p c best.0 (recorded_free best.0.name)

  drift-step : (c : Cluster) (replicas : ℕ) → Safe (reconcile_version_drift e p c replicas)
  unfolding reconcile_version_drift
  drift-step c replicas = search (plane_rules, drift_step-step)

  counted-replacement :
      (q : Plane) (c : Cluster)
      → Triple
          (λ (w : World S). Unit)
          (update_scale_status e q c)
          (λ a _. a.status.replacement ≡ q.status.replacement)
  unfolding update_scale_status scale_status
  counted-replacement q c =
      Triple-bind (λ _ _. Unit) _ _ (Triple-any _)
        (λ counts. Triple-bind (λ _ _. Unit) _ _ (Triple-any _) (λ _. Triple-pure _ (λ _ _. refl)))

  -- The control plane in memory is the one that was read, but for a replacement that is over.
  record IsRead (q : Plane) : Type 0 where
    same_name : q.name ≡ p.name
    kept : (q.status.replacement ≡ p.status.replacement) ⊎ (q.status.replacement ≡ none)

  IsRead-of : (q : Plane) → (q ≡ p) ⊎ (q ≡ with_replacement none p) → IsRead q
  IsRead-of q (inl h) = record {
    same_name = ap (λ x. x.name) h;
    kept = inl (ap (λ x. x.status.replacement) h);
  }
  IsRead-of q (inr h) = record {
    same_name = ap (λ x. x.name) h;
    kept = inr (ap (λ x. x.status.replacement) h);
  }

  still_read :
      (a q : Plane)
      → a.status.replacement ≡ q.status.replacement
      → (q.status.replacement ≡ p.status.replacement) ⊎ (q.status.replacement ≡ none)
      → (a.status.replacement ≡ p.status.replacement) ⊎ (a.status.replacement ≡ none)
  still_read a q h (inl k) = inl (h ∙ k)
  still_read a q h (inr k) = inr (h ∙ k)

  settle-step :
      (q : Plane) (c : Cluster) (o : Outcome)
      → IsRead q
      → Safe (settle e q c (wanted p.spec.replicas) o)
  unfolding settle
  settle-step q c requeue h = search plane_rules
  settle-step q c done h =
      Moves-bind order _ _
        (scale_down-step e is_guarded p.status.replacement q (wanted p.spec.replicas)
          (λ name k. surplus_free name (
            subst
              (λ x.
                is_surplus e (wanted p.spec.replicas) (control_plane_machine_index e name x) ≡ true)
              h.same_name k))
          c)
        (λ _.
          Moves-bind_where order (λ a. a.status.replacement ≡ q.status.replacement) _ _
            (update_scale-step e is_guarded p.status.replacement q h.kept c)
            (λ s a k. (counted-replacement q c).at s tt a k)
            (λ a k. readiness-step e is_guarded p.status.replacement a (still_read a q k h.kept) c))

  after_drift-step :
      (c : Cluster) (o : Outcome) (q : Plane)
      → AfterDrift p (o, q)
      → Safe (after_drift e c (wanted p.spec.replicas) o q)
  unfolding after_drift
  after_drift-step c requeue q h = search plane_rules
  after_drift-step c done q h =
      Moves-bind order _ _
        (ensure_replicas-step e is_guarded p.status.replacement q c 0 (wanted p.spec.replicas))
        (λ o. settle-step q c o (IsRead-of q h))

  reconcile_linked-step : (c : Option Cluster) → Safe (reconcile_linked e p c)
  unfolding reconcile_linked
  reconcile_linked-step none = search plane_rules
  reconcile_linked-step (some c) =
      Moves-bind_where order (AfterDrift p) _ _ (drift-step c (wanted p.spec.replicas))
        (λ s a k. (drift-Drifts e p c (wanted p.spec.replicas)).at s tt a k)
        (λ a k. after_drift-step c a.0 a.1 k)

  pub reconcile_plane-step : Safe (reconcile_plane e (some p))
  unfolding reconcile_plane
  reconcile_plane-step = search (plane_rules, reconcile_linked-step)
