-- ===== src/Upgrade/Edges.antt =====
-- How one reconcile of controllers/hypervisorupgradeplan_controller.go may move the status of a
-- plan, and what must hold of the cluster for it.
use Prim.Native.Nat.{max}
use cluster_api_hypervisor.Common.{
  ℕ, suc, ◌≤◌, ◌<◌, String, Bool, true, false, ◌&&◌, ◌≡◌, ◌⊎◌, refl, List, [], Option, some, none,
  ◌==◌, find, select, length, get_elem?, if◌then◌else◌,
}
use cluster_api_hypervisor.Upgrade.{
  Phase, unset, pending, rolling_control_plane, rolling_workers, completed, failed, terminal,
  PlanSpec, PlanStatus, Plan,
}
use cluster_api_hypervisor.Upgrade.Versions.{
  resolve_upgrade_steps, initial_steps, mark_step_phase, missing_image_versions,
}
use cluster_api_hypervisor.Upgrade.Api.{
  Cluster, HypervisorCluster, ControlPlane, Machine, Objects, in_cluster,
}
use cluster_api_hypervisor.Upgrade.Reconcile.{is_advancing}
use cluster_api_hypervisor.Upgrade.Calls.{
  Library, refers_to, current_cluster_version, control_plane_converged, all_rolled,
}

abbrev pub step_count : PlanSpec → ℕ
step_count spec = length (resolve_upgrade_steps spec)

-- The phases that beginPlan is not for.
unfoldable pub has_begun : Phase → Bool
has_begun unset = false
has_begun pending = false
has_begun _ = true

-- The objects that the controller finds, as functions of what the server holds.
abbrev pub cluster_in : Objects → String → Option Cluster
cluster_in o name = find (λ c. c.name == name) o.clusters

abbrev pub control_plane_in : Objects → Cluster → Option ControlPlane
control_plane_in o c =
    if refers_to "HypervisorControlPlane" c.control_plane_ref
    then find (λ x. x.name == c.control_plane_ref.name) o.control_planes
    else none

abbrev pub hypervisor_cluster_in : Objects → Cluster → Option HypervisorCluster
hypervisor_cluster_in o c =
    if refers_to "HypervisorCluster" c.infrastructure_ref
    then find (λ x. x.name == c.infrastructure_ref.name) o.hypervisor_clusters
    else none

abbrev pub control_plane_machines_in : Objects → Cluster → List Machine
control_plane_machines_in o c = select (λ m. m.cluster_name == c.name && m.control_plane) o.machines

-- What a plan needs to begin.
pub record IsReady (lib : Library) (o : Objects) (spec : PlanSpec) : Type 0 where
  pub cluster : Cluster
  pub hypervisor_cluster : HypervisorCluster
  pub control_plane : ControlPlane
  pub cluster_found : cluster_in o spec.cluster_name ≡ some cluster
  pub infrastructure_found : hypervisor_cluster_in o cluster ≡ some hypervisor_cluster
  pub control_plane_found : control_plane_in o cluster ≡ some control_plane
  pub one_replica : max control_plane.replicas 1 ≡ 1
  pub advancing : is_advancing lib spec (current_cluster_version cluster control_plane) ≡ true
  pub registered :
      missing_image_versions hypervisor_cluster.image_versions (resolve_upgrade_steps spec) ≡ []

-- What the workers of a step wait for.
pub record IsConverged (o : Objects) (spec : PlanSpec) (step : String) : Type 0 where
  pub cluster : Cluster
  pub control_plane : ControlPlane
  pub cluster_found : cluster_in o spec.cluster_name ≡ some cluster
  pub control_plane_found : control_plane_in o cluster ≡ some control_plane
  pub asked : (cluster.topology_version == step) ≡ true
  pub converged :
      control_plane_converged step control_plane (control_plane_machines_in o cluster) ≡ true

-- What the end of a step waits for.
pub record IsRolled (o : Objects) (spec : PlanSpec) (step : String) : Type 0 where
  pub cluster : Cluster
  pub cluster_found : cluster_in o spec.cluster_name ≡ some cluster
  pub rolled : all_rolled step (select (in_cluster cluster.name) o.deployments) ≡ true

-- The moves of the status, from the objects that the reconcile finds.
pub data Edge (lib : Library) (o : Objects) (spec : PlanSpec) (a b : PlanStatus) : Type 0 where
  stays : b ≡ a → Edge lib o spec a b
  begins :
      (a.phase ≡ unset) ⊎ (a.phase ≡ pending)
      → IsReady lib o spec
      → b.phase ≡ rolling_control_plane
      → b.current_step ≡ 0
      → b.steps ≡ initial_steps (resolve_upgrade_steps spec)
      → Edge lib o spec a b
  rolls_workers :
      (step : String)
      → a.phase ≡ rolling_control_plane
      → get_elem? (resolve_upgrade_steps spec) a.current_step ≡ some step
      → IsConverged o spec step
      → b.phase ≡ rolling_workers
      → b.current_step ≡ a.current_step
      → b.steps ≡ mark_step_phase step rolling_workers a.steps
      → Edge lib o spec a b
  advances :
      (step : String)
      → a.phase ≡ rolling_workers
      → get_elem? (resolve_upgrade_steps spec) a.current_step ≡ some step
      → suc a.current_step < step_count spec
      → IsRolled o spec step
      → b.phase ≡ rolling_control_plane
      → b.current_step ≡ suc a.current_step
      → b.steps ≡ mark_step_phase step completed a.steps
      → Edge lib o spec a b
  completes :
      (step : String)
      → a.phase ≡ rolling_workers
      → get_elem? (resolve_upgrade_steps spec) a.current_step ≡ some step
      → suc a.current_step ≡ step_count spec
      → IsRolled o spec step
      → b.phase ≡ completed
      → b.current_step ≡ a.current_step
      → b.steps ≡ mark_step_phase step completed a.steps
      → Edge lib o spec a b
  -- the status names no step of the plan
  completes_past :
      terminal a.phase ≡ false
      → has_begun a.phase ≡ true
      → step_count spec ≤ a.current_step
      → b.phase ≡ completed
      → b.current_step ≡ a.current_step
      → Edge lib o spec a b
  fails :
      terminal a.phase ≡ false
      → b.phase ≡ failed
      → b.current_step ≡ a.current_step
      → Edge lib o spec a b

-- After a reconcile that found the plan `p` and the objects `o`: the server holds the plan with the
-- same spec, and its status moved along an edge; or the plan was being deleted, and is gone.
pub record Moved (lib : Library) (o : Objects) (p : Plan) (t : Objects) : Type 0 where
  pub after : Plan
  pub held : (t.plan ≡ some after) ⊎ ((p.deleting ≡ true) × (t.plan ≡ none))
  pub same_spec : after.spec ≡ p.spec
  pub edge : Edge lib o p.spec p.status after.status

-- The objects as they were found, up to the pause annotations.
pub record Frame (o t : Objects) : Type 0 where
  pub same_plan : t.plan ≡ o.plan
  pub same_clusters : t.clusters ≡ o.clusters
  pub same_hypervisor_clusters : t.hypervisor_clusters ≡ o.hypervisor_clusters
  pub same_control_planes : t.control_planes ≡ o.control_planes
  pub same_machines : t.machines ≡ o.machines
  pub same_rolled :
      (step name : String)
      → all_rolled step (select (in_cluster name) t.deployments)
        ≡ all_rolled step (select (in_cluster name) o.deployments)

pub Frame-start : (o : Objects) → Frame o o
Frame-start o = record {
  same_plan = refl;
  same_clusters = refl;
  same_hypervisor_clusters = refl;
  same_control_planes = refl;
  same_machines = refl;
  same_rolled = λ step name. refl;
}
