-- ===== src/ControlPlane/MachineSteps.antt =====
-- The steps on Machines of controllers/hypervisorcontrolplane_controller.go: which Machines they keep, and
-- that the snapshot of a replacement stays.
use cluster_api_hypervisor.Common.{
  ℕ, zero, suc, ◌+◌, String, Bool, true, false, ◌≡◌, ◌⊎◌, Option, none, some, List, [], ◌∷◌,
}
use cluster_api_hypervisor.Exec.{Exec, pure}
use cluster_api_hypervisor.Exec.Rules.{Moves, Moves-branch, Moves-bind}
use cluster_api_hypervisor.ControlPlane.{
  Replacement, Plane, Cluster, HypervisorCluster, Machine, HypervisorMachine, MachineTemplate,
  Secret,
}
use cluster_api_hypervisor.ControlPlane.Server.{World, Reconciler}
use cluster_api_hypervisor.ControlPlane.Versions.{
  Outcome, done, requeue, control_plane_machine_index,
}
use cluster_api_hypervisor.ControlPlane.Machines.{
  linked_hypervisor_cluster, reserve_on, reserve_control_plane_ip, generate_secret,
  ensure_cluster_pki_secret, clone_template, instantiate, added_or_fail, with_infrastructure,
  scale_status, ensure_hypervisor_machine, make_machine, unless_leftover, machine_of_replica,
  ensure_replica, ensure_replicas, is_surplus, delete_surplus, scale_down_machines, count_ready,
  machine_replica_counts, update_scale_status,
}
use cluster_api_hypervisor.ControlPlane.Steps.{
  PlaneStep, plane_order, plane_rules, update_status-PlaneStep, delete_machine-PlaneStep,
}

module _ {S : Type 0} (e : Reconciler S) (guarded : String → Bool) (r : Option Replacement) where
  abbrev Keeping : {A : Type 0} → Exec (World S) A → Type 0
  Keeping m = Moves (PlaneStep guarded r) m

  linked_hypervisor_cluster-step : (c : Cluster) → Keeping (linked_hypervisor_cluster e c)
  unfolding linked_hypervisor_cluster
  linked_hypervisor_cluster-step c = search plane_rules

  reserve_on-step :
      (p : Plane) (c : Cluster) (hc : Option HypervisorCluster) → Keeping (reserve_on e p c hc)
  unfolding reserve_on
  reserve_on-step p c none = search plane_rules
  reserve_on-step p c (some hc) = search plane_rules

  reserve-step : (p : Plane) (c : Cluster) → Keeping (reserve_control_plane_ip e p c)
  unfolding reserve_control_plane_ip
  reserve-step p c = search (plane_rules, linked_hypervisor_cluster-step, reserve_on-step)

  generate_secret-step :
      (p : Plane) (c : Cluster) (s : Option Secret) → Keeping (generate_secret e p c s)
  unfolding generate_secret
  generate_secret-step p c none = search (plane_rules, reserve-step) depth 10
  generate_secret-step p c (some s) = search plane_rules

  ensure_pki-step : (p : Plane) (c : Cluster) → Keeping (ensure_cluster_pki_secret e p c)
  unfolding ensure_cluster_pki_secret
  ensure_pki-step p c = search (plane_rules, generate_secret-step)

  clone_template-step :
      (p : Plane) (c : Cluster) (m : Machine) (t : Option MachineTemplate)
      → Keeping (clone_template e p c m t)
  unfolding clone_template
  clone_template-step p c m none = search plane_rules
  clone_template-step p c m (some t) = search plane_rules

  instantiate-step :
      (p : Plane) (c : Cluster) (m : Machine) (h : Option HypervisorMachine)
      → Keeping (instantiate e p c m h)
  unfolding instantiate
  instantiate-step p c m none = search (plane_rules, clone_template-step)
  instantiate-step p c m (some h) = search plane_rules

  ensure_hm-step :
      (p : Plane) (c : Cluster) (m : Machine) → Keeping (ensure_hypervisor_machine e p c m)
  unfolding ensure_hypervisor_machine
  ensure_hm-step p c m = search (plane_rules, instantiate-step)

  added_or_fail-step : (m : Machine) (added : Bool) → Keeping (added_or_fail e m added)
  added_or_fail-step m true = search plane_rules
  added_or_fail-step m false = search plane_rules

  make_machine-step : (p : Plane) (c : Cluster) (n : String) → Keeping (make_machine e p c n)
  unfolding make_machine
  make_machine-step p c n = search (plane_rules, ensure_pki-step, added_or_fail-step) depth 12

  unless_leftover-step :
      (p : Plane) (c : Cluster) (n : String) (h : Option HypervisorMachine)
      → Keeping (unless_leftover e p c n h)
  unfolding unless_leftover
  unless_leftover-step p c n none = search (plane_rules, make_machine-step)
  unless_leftover-step p c n (some h) = search plane_rules

  machine_of_replica-step :
      (p : Plane) (c : Cluster) (n : String) (m : Option Machine)
      → Keeping (machine_of_replica e p c n m)
  unfolding machine_of_replica
  machine_of_replica-step p c n none = search (plane_rules, unless_leftover-step)
  machine_of_replica-step p c n (some m) = search plane_rules

  with_infrastructure-step :
      (p : Plane) (c : Cluster) (m : Option Machine) → Keeping (with_infrastructure e p c m)
  with_infrastructure-step p c none = search plane_rules
  with_infrastructure-step p c (some m) = search (plane_rules, ensure_hm-step)

  ensure_replica-step : (p : Plane) (c : Cluster) (n : String) → Keeping (ensure_replica e p c n)
  unfolding ensure_replica
  ensure_replica-step p c n =
      search (plane_rules, machine_of_replica-step, with_infrastructure-step) depth 10

  next_replica-step :
      (o : Outcome) (rest : Exec (World S) Outcome)
      → Keeping rest
      → Keeping (elim o [ requeue ↦ pure requeue | done ↦ rest ])
  next_replica-step requeue rest k = search plane_rules
  next_replica-step done rest k = k

  pub ensure_replicas-step :
      (p : Plane) (c : Cluster) (i left : ℕ) → Keeping (ensure_replicas e p c i left)
  unfolding ensure_replicas
  ensure_replicas-step p c i zero = search plane_rules
  ensure_replicas-step p c i (suc left) =
      Moves-bind (plane_order guarded r) _ _ (ensure_replica-step p c _)
        (λ o. next_replica-step o _ (ensure_replicas-step p c (i + 1) left))

  module _ (p : Plane) (replicas : ℕ)
      (free : (name : String)
        → is_surplus e replicas (control_plane_machine_index e name p.name) ≡ true
        → guarded name ≡ false) where
    delete_surplus-step : (ms : List Machine) → Keeping (delete_surplus e p replicas ms)
    unfolding delete_surplus
    delete_surplus-step [] = search plane_rules
    delete_surplus-step (m ∷ ms) =
        Moves-bind (plane_order guarded r) _ _
          (Moves-branch _ _ _ (λ h. delete_machine-PlaneStep guarded r m.name (free m.name h))
            (λ _. search plane_rules))
          (λ _. delete_surplus-step ms)

    pub scale_down-step : (c : Cluster) → Keeping (scale_down_machines e p c replicas)
    unfolding scale_down_machines
    scale_down-step c = search (plane_rules, delete_surplus-step)

  count_ready-step : (ms : List Machine) → Keeping (count_ready e ms)
  unfolding count_ready
  count_ready-step [] = search plane_rules
  count_ready-step (m ∷ ms) =
      Moves-bind (plane_order guarded r) _ _ (search plane_rules) (λ h.
        Moves-bind (plane_order guarded r) _ _ (count_ready-step ms) (λ n. search plane_rules))

  replica_counts-step : (c : Cluster) → Keeping (machine_replica_counts e c)
  unfolding machine_replica_counts
  replica_counts-step c = search (plane_rules, count_ready-step) depth 10

  module _ (p : Plane) (read : (p.status.replacement ≡ r) ⊎ (p.status.replacement ≡ none)) where
    pub update_scale-step : (c : Cluster) → Keeping (update_scale_status e p c)
    unfolding update_scale_status scale_status
    update_scale-step c = Moves-bind (plane_order guarded r) _ _ (replica_counts-step c) (λ counts.
        Moves-bind (plane_order guarded r) _ _
          (update_status-PlaneStep guarded r (scale_status e p counts.0 counts.1)
            (kept counts.0 counts.1))
          (λ _. search plane_rules))
      where
        kept :
            (made ready : ℕ)
            → ((scale_status e p made ready).replacement ≡ r)
              ⊎ ((scale_status e p made ready).replacement ≡ none)
        kept made ready = read
