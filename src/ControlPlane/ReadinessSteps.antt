-- ===== src/ControlPlane/ReadinessSteps.antt =====
-- The steps of reconcileReadiness of controllers/hypervisorcontrolplane_controller.go: they keep every
-- Machine and the snapshot of a replacement.
use cluster_api_hypervisor.Common.{ℕ, String, Bool, true, false, ◌≡◌, ◌⊎◌, Option, none, some}
use cluster_api_hypervisor.Exec.{Result, ok, err, Exec, pure}
use cluster_api_hypervisor.Exec.Rules.{Moves, Moves-bind, Moves-if}
use cluster_api_hypervisor.ControlPlane.{
  Replacement, Plane, Cluster, Machine, HypervisorMachine, Secret,
}
use cluster_api_hypervisor.ControlPlane.Pki.{ClusterPki}
use cluster_api_hypervisor.ControlPlane.Server.{World, Reconciler, update_status}
use cluster_api_hypervisor.ControlPlane.Readiness.{
  ready_status, put_kubeconfig, ensure_kubeconfig_secret, cluster_pki, healthy_by, seed_by,
  mark_ready, publish_access, when_healthy, access_at, access_by, access_from, readiness_of,
  reconcile_readiness,
}
use cluster_api_hypervisor.ControlPlane.Steps.{
  PlaneStep, plane_order, plane_rules, update_status-PlaneStep,
}

module _ {S : Type 0} (e : Reconciler S) (guarded : String → Bool) (r : Option Replacement) where
  abbrev Keeping : {A : Type 0} → Exec (World S) A → Type 0
  Keeping m = Moves (PlaneStep guarded r) m

  put_kubeconfig-step :
      (c : Cluster) (d : String) (s : Option Secret) → Keeping (put_kubeconfig e c d s)
  unfolding put_kubeconfig
  put_kubeconfig-step c d none = search plane_rules
  put_kubeconfig-step c d (some s) = search plane_rules

  ensure_kubeconfig-step :
      (c : Cluster) (u : String) (k : ClusterPki) → Keeping (ensure_kubeconfig_secret e c u k)
  unfolding ensure_kubeconfig_secret
  ensure_kubeconfig-step c u k = search (plane_rules, put_kubeconfig-step) depth 10

  cluster_pki-step : (c : Cluster) → Keeping (cluster_pki e c)
  unfolding cluster_pki
  cluster_pki-step c = search plane_rules

  verdict-step :
      (x : Result (Unit {0}))
      → Keeping {A = Bool} (elim x [ ok _ ↦ pure true | err _ ↦ pure false ])
  verdict-step (ok _) = search plane_rules
  verdict-step (err _) = search plane_rules

  healthy_by-step :
      (check : Option (String → ℕ → ClusterPki → Exec S (Unit {0}))) (port : ℕ) (k : ClusterPki)
      → Keeping (healthy_by e check port k)
  unfolding healthy_by
  healthy_by-step none port k = search plane_rules
  healthy_by-step (some check) port k =
      Moves-bind (plane_order guarded r) _ _ (search plane_rules) verdict-step

  seed_by-step :
      (seed : Option (String → String → ClusterPki → Exec S (Unit {0}))) (u ip : String)
      (k : ClusterPki)
      → Keeping (seed_by e seed u ip k)
  unfolding seed_by
  seed_by-step none u ip k = search plane_rules
  seed_by-step (some seed) u ip k = search plane_rules

  module _ (p : Plane) (read : (p.status.replacement ≡ r) ⊎ (p.status.replacement ≡ none)) where
    mark_ready-step : Keeping (mark_ready e p)
    unfolding mark_ready ready_status
    mark_ready-step =
        Moves-if p.status.ready (pure tt) (update_status (ready_status p.status))
          (search plane_rules) (update_status-PlaneStep guarded r (ready_status p.status) kept)
      where
        kept :
            ((ready_status p.status).replacement ≡ r) ⊎ ((ready_status p.status).replacement ≡ none)
        kept = read

    publish_access-step :
        (c : Cluster) (ip : String) (port : ℕ) (k : ClusterPki)
        → Keeping (publish_access e p c ip port k)
    unfolding publish_access
    publish_access-step c ip port k =
        Moves-bind (plane_order guarded r) _ _ (ensure_kubeconfig-step c _ k) (λ _.
          Moves-bind (plane_order guarded r) _ _ (seed_by-step _ _ ip k)
            (λ _. Moves-bind (plane_order guarded r) _ _ mark_ready-step (λ _. search plane_rules)))

    when_healthy-step :
        (h : Bool) (c : Cluster) (ip : String) (port : ℕ) (k : ClusterPki)
        → Keeping (when_healthy e h p c ip port k)
    unfolding when_healthy
    when_healthy-step false c ip port k = search plane_rules
    when_healthy-step true c ip port k = publish_access-step c ip port k

    access_at-step : (c : Cluster) (ip : String) (port : ℕ) → Keeping (access_at e p c ip port)
    unfolding access_at
    access_at-step c ip port =
        search (plane_rules, cluster_pki-step, healthy_by-step, when_healthy-step) depth 12

    access_by-step :
        (c : Cluster) (ip : String) (port : Option ℕ) → Keeping (access_by e p c ip port)
    unfolding access_by
    access_by-step c ip none = search plane_rules
    access_by-step c ip (some port) = access_at-step c ip port

    access_from-step : (c : Cluster) (h : Option HypervisorMachine) → Keeping (access_from e p c h)
    unfolding access_from
    access_from-step c none = search plane_rules
    access_from-step c (some h) = search (plane_rules, access_by-step)

    readiness_of-step : (c : Cluster) (m : Option Machine) → Keeping (readiness_of e p c m)
    unfolding readiness_of
    readiness_of-step c none = search plane_rules
    readiness_of-step c (some m) = search (plane_rules, access_from-step)

    pub readiness-step : (c : Cluster) → Keeping (reconcile_readiness e p c)
    unfolding reconcile_readiness
    readiness-step c = search (plane_rules, readiness_of-step)
