-- ===== src/Upgrade/Reconcile.antt =====
-- HypervisorUpgradePlanReconciler of controllers/hypervisorupgradeplan_controller.go: one reconcile
-- of a plan. Events are not modelled.
use Prim.Native.Nat.{max}
use cluster_api_hypervisor.Common.{
  suc, String, Bool, true, false, not, ◌||◌, List, [], ◌∷◌, Option, none, some, ◌==◌, eqb, leb,
  length, get_elem?, if◌then◌else◌,
}
use cluster_api_hypervisor.Exec.{other, Exec, pure, raise, ◌>>=◌, ◌>>◌}
use cluster_api_hypervisor.Upgrade.{
  Phase, unset, pending, rolling_control_plane, rolling_workers, completed, failed, terminal,
  PlanSpec, PlanStatus, Plan,
}
use cluster_api_hypervisor.Upgrade.Versions.{
  resolve_upgrade_steps, mark_step_phase, initial_steps, missing_image_versions,
  check_version_advance,
}
use cluster_api_hypervisor.Upgrade.Api.{
  Cluster, HypervisorCluster, ControlPlane, Api, get_plan, update_status, update_finalizer,
  patch_cluster_version, list_deployments, list_control_plane_machines,
}
use cluster_api_hypervisor.Upgrade.Calls.{
  Library, Outcome, all_rolled, condition, control_plane_converged, control_plane_of,
  current_cluster_version, done, linked_hypervisor_cluster, requeue, set_machine_deployments_paused,
  target_cluster,
}

module _ (lib : Library) where
  -- failPlan
  unfoldable pub fail_plan : Plan → String → Exec Api Outcome
  fail_plan plan reason = do
    let message = lib.describe reason plan
    update_status (record plan.status {
      phase = failed;
      failure_reason = reason;
      failure_message = message;
      conditions = lib.set_status_condition (condition "Ready" false reason message) (
          lib.set_status_condition (condition "Progressing" false reason message)
            plan.status.conditions);
    })
    pure done

  abbrev completed_status : Plan → PlanStatus
  completed_status plan = record plan.status {
    phase = completed;
    conditions =
        lib.set_status_condition
          (condition "Ready" true "UpgradeCompleted" (lib.describe "Ready" plan))
          (lib.set_status_condition
            (condition "Progressing" false "UpgradeCompleted" "every step completed")
            plan.status.conditions);
  }

  unfoldable pub unpause_if_found : Option Cluster → Exec Api (Unit {0})
  unpause_if_found none = pure tt
  unpause_if_found (some cluster) = set_machine_deployments_paused cluster false

  -- completePlan
  unfoldable pub complete_plan : Plan → Exec Api Outcome
  complete_plan plan = do
    cluster ← target_cluster plan
    unpause_if_found cluster
    update_status (completed_status plan)
    pure done

  -- reconcileDelete
  unfoldable pub reconcile_delete : Plan → Exec Api Outcome
  reconcile_delete plan = do
    cluster ← target_cluster plan
    unpause_if_found cluster
    update_finalizer false
    pure done

  -- The status of a plan that passed the preflight.
  abbrev pub begun_status : Plan → String → PlanStatus
  begun_status plan current = record plan.status {
    from_version = current;
    current_step = 0;
    steps = initial_steps (resolve_upgrade_steps plan.spec);
    failure_reason = "";
    failure_message = "";
    phase = rolling_control_plane;
    conditions =
        lib.set_status_condition
          (condition "Progressing" true "UpgradeStarted" (lib.describe current plan))
          plan.status.conditions;
  }

  -- `current != "" && plan.Spec.ToVersion != ""`, and checkVersionAdvance
  unfoldable pub is_advancing : PlanSpec → String → Bool
  is_advancing spec current =
      current == ""
      || spec.to_version == ""
      || check_version_advance lib.semver current spec.to_version

  -- The end of beginPlan, by the versions that have no image.
  unfoldable pub start_unless_missing : Plan → String → List String → Exec Api Outcome
  start_unless_missing plan current [] = do update_status (begun_status plan current); pure requeue
  start_unless_missing plan current (v ∷ vs) = fail_plan plan "ImageNotRegistered"

  -- The checks of beginPlan once the objects are there.
  unfoldable pub preflight : Plan → Cluster → HypervisorCluster → ControlPlane → Exec Api Outcome
  preflight plan cluster hc cp =
      let current = current_cluster_version cluster cp in
      if not (eqb (max cp.replicas 1) 1)
      then fail_plan plan "UnsupportedReplicas"
      else if not (is_advancing plan.spec current)
      then fail_plan plan "VersionNotAdvancing"
      else start_unless_missing plan current
          (missing_image_versions hc.image_versions (resolve_upgrade_steps plan.spec))

  unfoldable pub begin_with_control_plane :
      Plan → Cluster → HypervisorCluster → Option ControlPlane → Exec Api Outcome
  begin_with_control_plane plan cluster hc none = fail_plan plan "ControlPlaneNotFound"
  begin_with_control_plane plan cluster hc (some cp) = preflight plan cluster hc cp

  unfoldable pub begin_with_infrastructure :
      Plan → Cluster → Option HypervisorCluster → Exec Api Outcome
  begin_with_infrastructure plan cluster none = fail_plan plan "InfrastructureNotFound"
  begin_with_infrastructure plan cluster (some hc) = do
    cp ← control_plane_of cluster
    begin_with_control_plane plan cluster hc cp

  -- beginPlan
  unfoldable pub begin_plan : Plan → Cluster → Exec Api Outcome
  begin_plan plan cluster = do
    hc ← linked_hypervisor_cluster cluster
    begin_with_infrastructure plan cluster hc

  -- patchTopologyVersion
  unfoldable pub patch_topology_version : Plan → Cluster → String → Exec Api Outcome
  patch_topology_version plan cluster step =
      if cluster.class_name == ""
      then fail_plan plan "TopologyMissing"
      else do patch_cluster_version cluster.name step; pure requeue

  abbrev pub workers_status : Plan → String → PlanStatus
  workers_status plan step = record plan.status {
    steps = mark_step_phase step rolling_workers plan.status.steps;
    phase = rolling_workers;
  }

  unfoldable pub gate_workers : Plan → Cluster → String → Option ControlPlane → Exec Api Outcome
  gate_workers plan cluster step none = pure requeue
  gate_workers plan cluster step (some cp) = do
    machines ← list_control_plane_machines cluster.name
    if control_plane_converged step cp machines
        then (do update_status (workers_status plan step); pure requeue)
        else pure requeue

  -- reconcileControlPlaneStep
  unfoldable pub reconcile_control_plane_step : Plan → Cluster → String → Exec Api Outcome
  reconcile_control_plane_step plan cluster step = do
    set_machine_deployments_paused cluster true
    if not (cluster.topology_version == step)
        then patch_topology_version plan cluster step
        else do cp ← control_plane_of cluster; gate_workers plan cluster step cp

  abbrev pub marked_completed : Plan → String → Plan
  marked_completed plan step = record plan {
    status = record plan.status { steps = mark_step_phase step completed plan.status.steps };
  }

  abbrev pub next_step_status : Plan → String → PlanStatus
  next_step_status plan step = record (marked_completed plan step).status {
    current_step = suc plan.status.current_step;
    phase = rolling_control_plane;
  }

  unfoldable pub finish_step : Plan → String → Exec Api Outcome
  finish_step plan step =
      if leb (length (resolve_upgrade_steps plan.spec)) (suc plan.status.current_step)
      then complete_plan (marked_completed plan step)
      else do update_status (next_step_status plan step); pure requeue

  -- reconcileWorkersStep
  unfoldable pub reconcile_workers_step : Plan → Cluster → String → Exec Api Outcome
  reconcile_workers_step plan cluster step = do
    set_machine_deployments_paused cluster false
    mds ← list_deployments cluster.name
    if all_rolled step mds then finish_step plan step else pure requeue

  -- The `switch` on the phase, with the version of the current step.
  unfoldable pub reconcile_step : Phase → Plan → Cluster → String → Exec Api Outcome
  reconcile_step rolling_control_plane plan cluster step =
      reconcile_control_plane_step plan cluster step
  reconcile_step rolling_workers plan cluster step = reconcile_workers_step plan cluster step
  reconcile_step _ plan cluster step = raise (other "unexpected phase")

  -- `plan.Status.CurrentStep >= len(steps)` completes the plan.
  unfoldable pub reconcile_current : Option String → Plan → Cluster → Exec Api Outcome
  reconcile_current none plan cluster = complete_plan plan
  reconcile_current (some step) plan cluster = reconcile_step plan.status.phase plan cluster step

  unfoldable pub reconcile_phase : Phase → Plan → Cluster → Exec Api Outcome
  reconcile_phase unset plan cluster = begin_plan plan cluster
  reconcile_phase pending plan cluster = begin_plan plan cluster
  reconcile_phase _ plan cluster =
      reconcile_current (get_elem? (resolve_upgrade_steps plan.spec) plan.status.current_step) plan
        cluster

  unfoldable pub reconcile_on : Plan → Option Cluster → Exec Api Outcome
  reconcile_on plan none = fail_plan plan "ClusterNotFound"
  reconcile_on plan (some cluster) = reconcile_phase plan.status.phase plan cluster

  unfoldable pub reconcile_plan : Option Plan → Exec Api Outcome
  reconcile_plan none = pure done
  reconcile_plan (some plan) =
      if plan.deleting
      then reconcile_delete plan
      else if terminal plan.status.phase
      then pure done
      else if not plan.has_finalizer
      then (do update_finalizer true; pure done)
      else do cluster ← target_cluster plan; reconcile_on plan cluster

  -- Reconcile
  unfoldable pub reconcile : Exec Api Outcome
  reconcile = do plan ← get_plan; reconcile_plan plan
