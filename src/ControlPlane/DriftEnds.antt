-- ===== src/ControlPlane/DriftEnds.antt =====
-- What reconcileVersionDrift of controllers/hypervisorcontrolplane_controller.go returns: the control plane
-- in memory where the reconcile goes on.
use cluster_api_hypervisor.Common.{
  ℕ, String, ◌≡◌, ◌⊎◌, inl, inr, refl, sym, subst, Option, none, some, ◌==◌,
}
use cluster_api_hypervisor.Common.Int.{ℤ}
use cluster_api_hypervisor.Exec.{Exec, pure, ◌>>=◌, ◌>>◌}
use cluster_api_hypervisor.Exec.Triple.{
  Triple-any, Triple, Triple-pure, Triple-raise, Triple-bind, Triple-if,
}
use cluster_api_hypervisor.ControlPlane.{Replacement, Plane, Cluster, Machine, HypervisorMachine}
use cluster_api_hypervisor.ControlPlane.Server.{World, Reconciler, update_status, list_machines}
use cluster_api_hypervisor.ControlPlane.Versions.{
  Outcome, done, requeue, machine_drifted, with_replacement, is_recorded, record_snapshot,
  capture_at, capture_from, capture_by, capture_replacement_snapshot, delete_replaced_machine,
  replace_machine, clear_if_back, finish_replacement, drift_step, find_drifted,
  reconcile_version_drift,
}

-- What is known of the control plane in memory where no replacement is in flight.
abbrev pub AfterDrift : Plane → Outcome × Plane → Type 0
AfterDrift p (requeue, q) = Unit
AfterDrift p (done, q) = (q ≡ p) ⊎ (q ≡ with_replacement none p)

module _ {S : Type 0} (e : Reconciler S) (p : Plane) where
  abbrev pub Drifts : Exec (World S) (Outcome × Plane) → Type 0
  Drifts m = Triple (λ _. Unit) m (λ a _. AfterDrift p a)

  record_snapshot-Drifts :
      (c : Cluster) (m : Machine) (snapshot : String) → Drifts (record_snapshot e p c m snapshot)
  unfolding record_snapshot
  record_snapshot-Drifts c m snapshot =
      Triple-bind (λ _ _. Unit) _ _ (Triple-any _)
        (λ path. Triple-bind (λ _ _. Unit) _ _ (Triple-any _) (λ _. Triple-pure _ (λ _ _. tt)))

  capture_at-Drifts :
      (capture : String → ℕ → Exec S String) (c : Cluster) (m : Machine) (port : Option ℕ)
      → Drifts (capture_at e capture p c m port)
  unfolding capture_at
  capture_at-Drifts capture c m none = Triple-pure _ (λ _ _. tt)
  capture_at-Drifts capture c m (some port) =
      Triple-bind (λ _ _. Unit) _ _ (Triple-any _) (λ snapshot. record_snapshot-Drifts c m snapshot)

  capture_from-Drifts :
      (capture : String → ℕ → Exec S String) (c : Cluster) (m : Machine)
      (h : Option HypervisorMachine)
      → Drifts (capture_from e capture p c m h)
  unfolding capture_from
  capture_from-Drifts capture c m none = Triple-pure _ (λ _ _. tt)
  capture_from-Drifts capture c m (some h) = capture_at-Drifts capture c m _

  capture_by-Drifts :
      (capture : Option (String → ℕ → Exec S String)) (c : Cluster) (m : Machine)
      → Drifts (capture_by e capture p c m)
  unfolding capture_by
  capture_by-Drifts none c m = Triple-raise _
  capture_by-Drifts (some capture) c m =
      Triple-bind (λ _ _. Unit) _ _ (Triple-any _) (λ h. capture_from-Drifts capture c m h)

  delete_replaced-requeues :
      (m : Machine)
      → Triple (λ (w : World S). Unit) (delete_replaced_machine e m) (λ o _. o ≡ requeue)
  unfolding delete_replaced_machine
  delete_replaced-requeues m =
      Triple-bind (λ _ _. Unit) _ _ (Triple-any _)
        (λ _.
          Triple-bind (λ _ _. Unit) _ _ (Triple-any _)
            (λ c.
              Triple-bind (λ _ _. Unit) _ _ (Triple-any _)
                (λ _.
                  Triple-bind (λ _ _. Unit) _ _ (Triple-any _)
                    (λ h.
                      Triple-bind (λ _ _. Unit) _ _ (Triple-any _)
                        (λ _. Triple-pure _ (λ _ _. refl))))))

  replace_machine-Drifts : (c : Cluster) (m : Machine) → Drifts (replace_machine e p c m)
  unfolding replace_machine capture_replacement_snapshot
  replace_machine-Drifts c m =
      Triple-if (is_recorded e p.status.replacement m.name p.spec.version) _ _
        (λ _.
          Triple-bind _ _ _ (delete_replaced-requeues m)
            (λ o. Triple-pure _ (λ w h. subst (λ x. AfterDrift p (x, p)) (sym h) tt)))
        (λ _. capture_by-Drifts e.capture_etcd_snapshot c m)

  clear_if_back-Drifts : (m : Option Machine) → Drifts (clear_if_back e p m)
  unfolding clear_if_back
  clear_if_back-Drifts none = Triple-pure _ (λ _ _. inl refl)
  clear_if_back-Drifts (some m) =
      Triple-if (machine_drifted m p.spec.version) (pure (done, p))
        (update_status (with_replacement none p).status >> pure (done, with_replacement none p))
        (λ _. Triple-pure (done, p) (λ _ _. inl refl))
        (λ _.
          Triple-bind (λ _ _. Unit) _ _ (Triple-any _)
            (λ _. Triple-pure (done, with_replacement none p) (λ _ _. inr refl)))

  finish-Drifts : (rep : Option Replacement) → Drifts (finish_replacement e p rep)
  unfolding finish_replacement
  finish-Drifts none = Triple-pure _ (λ _ _. inl refl)
  finish-Drifts (some rep) = Triple-bind (λ _ _. Unit) _ _ (Triple-any _) clear_if_back-Drifts

  drift_step-Drifts : (c : Cluster) (best : Option (Machine × ℤ)) → Drifts (drift_step e p c best)
  unfolding drift_step
  drift_step-Drifts c none = finish-Drifts p.status.replacement
  drift_step-Drifts c (some best) = replace_machine-Drifts c best.0

  pub drift-Drifts : (c : Cluster) (replicas : ℕ) → Drifts (reconcile_version_drift e p c replicas)
  unfolding reconcile_version_drift
  drift-Drifts c replicas =
      Triple-if (p.spec.version == "") (pure (done, p))
        (list_machines c.name >>= λ ms. drift_step e p c (find_drifted e p replicas ms none))
        (λ _. Triple-pure (done, p) (λ _ _. inl refl))
        (λ _. Triple-bind (λ _ _. Unit) _ _ (Triple-any _) (λ ms. drift_step-Drifts c _))
