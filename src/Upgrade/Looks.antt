-- ===== src/Upgrade/Looks.antt =====
-- What each call of the upgrade controller reads.
use cluster_api_hypervisor.Common.{
  String, Bool, false, ◌≡◌, refl, List, [], ◌∷◌, Option, none, some, select,
}
use cluster_api_hypervisor.Exec.Ends.{Ends-if}
use cluster_api_hypervisor.Upgrade.{Plan}
use cluster_api_hypervisor.Upgrade.Api.{
  Cluster, MachineDeployment, Objects, get_cluster, get_hypervisor_cluster, get_control_plane,
  list_deployments, list_control_plane_machines, patch_paused, in_cluster,
}
use cluster_api_hypervisor.Upgrade.Reconcile.{unpause_if_found}
use cluster_api_hypervisor.Upgrade.Calls.{
  Library, is_as_wanted, patch_each, set_machine_deployments_paused, target_cluster,
  control_plane_of, linked_hypervisor_cluster, all_rolled, refers_to,
}
use cluster_api_hypervisor.Upgrade.Edges.{
  cluster_in, control_plane_in, hypervisor_cluster_in, control_plane_machines_in,
}
use cluster_api_hypervisor.Upgrade.Reads.{
  Reads, Reads-call, Reads-done, Reads-bind, paused-all_rolled,
}

module _ (lib : Library) (o : Objects) (p : Plan) (start : o.plan ≡ some p) where
  abbrev Quiet : (Unit {0}) → Type 0
  Quiet _ = Unit

  patch_paused-Reads : (b : Bool) (name : String) → Reads lib o p start (patch_paused b name) Quiet
  unfolding patch_paused
  patch_paused-Reads b name = Reads-call lib o p start _ Quiet (λ t f. (
    tt,
    record {
      same_plan = f.same_plan;
      same_clusters = f.same_clusters;
      same_hypervisor_clusters = f.same_hypervisor_clusters;
      same_control_planes = f.same_control_planes;
      same_machines = f.same_machines;
      same_rolled = λ step cluster.
          rw (paused-all_rolled step cluster name b t.deployments) (f.same_rolled step cluster);
    },
  ))

  pub list-Reads :
      (name : String)
      → Reads lib o p start (list_deployments name) (λ mds.
        (step : String)
        → all_rolled step mds ≡ all_rolled step (select (in_cluster name) o.deployments))
  unfolding list_deployments
  list-Reads name = Reads-call lib o p start _ _ (λ t f. (λ step. f.same_rolled step name, f))

  pub machines-Reads :
      (c : Cluster)
      → Reads lib o p start
          (list_control_plane_machines c.name)
          (λ ms. ms ≡ control_plane_machines_in o c)
  unfolding list_control_plane_machines
  machines-Reads c = Reads-call lib o p start _ _ (λ t f. (rw f.same_machines refl, f))

  patch_each-Reads :
      (b : Bool) (mds : List MachineDeployment) → Reads lib o p start (patch_each b mds) Quiet
  unfolding patch_each
  patch_each-Reads b [] = Reads-done lib o p start tt Quiet tt
  patch_each-Reads b (md ∷ mds) =
      Reads-bind lib o p start _ _ Quiet Quiet
        (Ends-if (is_as_wanted b md) _ _ (λ _. Reads-done lib o p start tt Quiet tt)
          (λ _. patch_paused-Reads b md.name))
        (λ _ _. patch_each-Reads b mds)

  pub set_paused-Reads :
      (c : Cluster) (b : Bool) → Reads lib o p start (set_machine_deployments_paused c b) Quiet
  unfolding set_machine_deployments_paused
  set_paused-Reads c b =
      Reads-bind lib o p start _ _ _ Quiet (list-Reads c.name) (λ mds _. patch_each-Reads b mds)

  pub target-Reads :
      (q : Plan)
      → Reads lib o p start (target_cluster q) (λ c. c ≡ cluster_in o q.spec.cluster_name)
  unfolding target_cluster get_cluster
  target-Reads q = Reads-call lib o p start _ _ (λ t f. (rw f.same_clusters refl, f))

  pub control_plane-Reads :
      (c : Cluster) → Reads lib o p start (control_plane_of c) (λ x. x ≡ control_plane_in o c)
  unfolding control_plane_of get_control_plane
  control_plane-Reads c =
      Ends-if (refers_to "HypervisorControlPlane" c.control_plane_ref) _ _
        (λ h. Reads-call lib o p start _ _ (λ t f. (rw (f.same_control_planes, h) refl, f)))
        (λ h. Reads-done lib o p start none _ (rw h refl))

  pub linked-Reads :
      (c : Cluster)
      → Reads lib o p start (linked_hypervisor_cluster c) (λ x. x ≡ hypervisor_cluster_in o c)
  unfolding linked_hypervisor_cluster get_hypervisor_cluster
  linked-Reads c =
      Ends-if (refers_to "HypervisorCluster" c.infrastructure_ref) _ _
        (λ h. Reads-call lib o p start _ _ (λ t f. (rw (f.same_hypervisor_clusters, h) refl, f)))
        (λ h. Reads-done lib o p start none _ (rw h refl))

  pub unpause-Reads : (c : Option Cluster) → Reads lib o p start (unpause_if_found lib c) Quiet
  unfolding unpause_if_found
  unpause-Reads none = Reads-done lib o p start tt Quiet tt
  unpause-Reads (some c) = set_paused-Reads c false
