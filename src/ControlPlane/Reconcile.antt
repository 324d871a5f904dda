-- ===== src/ControlPlane/Reconcile.antt =====
-- Reconcile of controllers/hypervisorcontrolplane_controller.go.
use cluster_api_hypervisor.Common.{
  ℕ, String, Bool, ◌&&◌, ◌||◌, Option, none, some, List, [], ◌∷◌, ◌==◌, eqb, if◌then◌else◌,
}
use cluster_api_hypervisor.Common.Int.{ℤ, pos, negsuc}
use cluster_api_hypervisor.Exec.{Exec, pure, ◌>>=◌, ◌>>◌}
use cluster_api_hypervisor.ControlPlane.{Plane, Cluster}
use cluster_api_hypervisor.ControlPlane.Server.{World, Reconciler, get_plane, list_clusters}
use cluster_api_hypervisor.ControlPlane.Versions.{Outcome, done, requeue, reconcile_version_drift}
use cluster_api_hypervisor.ControlPlane.Machines.{
  ensure_replicas, scale_down_machines, update_scale_status,
}
use cluster_api_hypervisor.ControlPlane.Readiness.{reconcile_readiness}

-- The Cluster's reference names the control plane.
unfoldable pub is_linked : String → Cluster → Bool
is_linked plane cluster =
    let ref = cluster.control_plane_ref in
    ref.defined && ref.name == plane && (ref.kind == "" || ref.kind == "HypervisorControlPlane")

-- linkedCluster
unfoldable pub linked_cluster : String → List Cluster → Option Cluster
linked_cluster plane [] = none
linked_cluster plane (cluster ∷ clusters) =
    let rest = linked_cluster plane clusters in
    if is_linked plane cluster then some cluster else rest

-- max(replicas, 1)
unfoldable pub wanted : ℤ → ℕ
wanted (pos n) = if eqb n 0 then 1 else n
wanted (negsuc n) = 1

module _ {S : Type 0} (e : Reconciler S) where
  -- The surplus, the status, and the readiness.
  unfoldable pub settle : Plane → Cluster → ℕ → Outcome → Exec (World S) Outcome
  settle plane cluster replicas requeue = pure requeue
  settle plane cluster replicas done = do
    scale_down_machines e plane cluster replicas
    counted ← update_scale_status e plane cluster
    reconcile_readiness e counted cluster

  -- Where no replacement is in flight.
  unfoldable pub after_drift : Cluster → ℕ → Outcome → Plane → Exec (World S) Outcome
  after_drift cluster replicas requeue plane = pure requeue
  after_drift cluster replicas done plane = do
    outcome ← ensure_replicas e plane cluster 0 replicas
    settle plane cluster replicas outcome

  unfoldable pub reconcile_linked : Plane → Option Cluster → Exec (World S) Outcome
  reconcile_linked plane none = pure done
  reconcile_linked plane (some cluster) = do
    drift ← reconcile_version_drift e plane cluster (wanted plane.spec.replicas)
    after_drift cluster (wanted plane.spec.replicas) drift.0 drift.1

  unfoldable pub reconcile_plane : Option Plane → Exec (World S) Outcome
  reconcile_plane none = pure done
  reconcile_plane (some plane) = do
    clusters ← list_clusters
    reconcile_linked plane (linked_cluster plane.name clusters)

  -- Reconcile
  unfoldable pub reconcile_control_plane : Exec (World S) Outcome
  reconcile_control_plane = do plane ← get_plane; reconcile_plane plane
