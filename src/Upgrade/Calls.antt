-- ===== src/Upgrade/Calls.antt =====
-- What the reconcile of controllers/hypervisorupgradeplan_controller.go is made of: the calls that
-- find objects and write pause annotations, and the tests on what was found.
use Prim.Native.Nat.{max}
use cluster_api_hypervisor.Common.{
  ℕ, String, Bool, true, false, not, ◌&&◌, List, [], ◌∷◌, Option, none, some, ◌==◌, leb, length,
  if◌then◌else◌,
}
use cluster_api_hypervisor.Exec.{Exec, pure, ◌>>=◌, ◌>>◌}
use cluster_api_hypervisor.Upgrade.{Condition, Plan, Semver}
use cluster_api_hypervisor.Upgrade.Api.{
  Reference, Cluster, HypervisorCluster, ControlPlane, Machine, MachineDeployment, Api, get_cluster,
  get_hypervisor_cluster, get_control_plane, list_deployments, patch_paused,
}

-- ctrl.Result: nothing more to do, or RequeueAfter.
pub data Outcome : Type 0 where
  done requeue : Outcome

-- What the controller takes from libraries: semver, meta.SetStatusCondition, and the words of its
-- messages.
pub record Library : Type 0 where
  pub semver : Semver
  pub set_status_condition : Condition → List Condition → List Condition
  pub describe : String → Plan → String

-- The pause annotation is as wanted.
unfoldable pub is_as_wanted : Bool → MachineDeployment → Bool
is_as_wanted true md = md.paused
is_as_wanted false md = not md.paused

-- The loop of setMachineDeploymentsPaused: a patch of each MachineDeployment that is not as wanted,
-- up to the first error.
unfoldable pub patch_each : Bool → List MachineDeployment → Exec Api (Unit {0})
patch_each paused [] = pure tt
patch_each paused (md ∷ mds) =
    (if is_as_wanted paused md then pure tt else patch_paused paused md.name)
    >> patch_each paused mds

-- setMachineDeploymentsPaused
unfoldable pub set_machine_deployments_paused : Cluster → Bool → Exec Api (Unit {0})
set_machine_deployments_paused cluster paused = do
  mds ← list_deployments cluster.name
  patch_each paused mds

-- targetCluster
unfoldable pub target_cluster : Plan → Exec Api (Option Cluster)
target_cluster plan = get_cluster plan.spec.cluster_name

abbrev pub refers_to : String → Reference → Bool
refers_to kind ref = ref.defined && ref.kind == kind && not (ref.name == "")

-- controlPlane
unfoldable pub control_plane_of : Cluster → Exec Api (Option ControlPlane)
control_plane_of cluster =
    if refers_to "HypervisorControlPlane" cluster.control_plane_ref
    then get_control_plane cluster.control_plane_ref.name
    else pure none

-- linkedHypervisorCluster
unfoldable pub linked_hypervisor_cluster : Cluster → Exec Api (Option HypervisorCluster)
linked_hypervisor_cluster cluster =
    if refers_to "HypervisorCluster" cluster.infrastructure_ref
    then get_hypervisor_cluster cluster.infrastructure_ref.name
    else pure none

-- currentClusterVersion
unfoldable pub current_cluster_version : Cluster → ControlPlane → String
current_cluster_version cluster cp =
    if cp.version == "" then cluster.topology_version else cp.version

abbrev pub condition : String → Bool → String → String → Condition
condition kind status reason message = record {
  kind = kind;
  status = status;
  reason = reason;
  message = message;
}

unfoldable pub all_at : String → List Machine → Bool
all_at step [] = true
all_at step (m ∷ ms) = m.version == step && all_at step ms

-- The control plane and its Machines have converged on the step version.
unfoldable pub control_plane_converged : String → ControlPlane → List Machine → Bool
control_plane_converged step cp machines =
    cp.version == step
    && all_at step machines
    && (cp.ready && leb (max cp.replicas 1) cp.ready_replicas)
    && leb (max cp.replicas 1) (length machines)

abbrev pub reaches : Option ℕ → Option ℕ → Bool
reaches (some have) (some want) = leb want have
reaches _ _ = false

-- What the loop of reconcileWorkersStep asks of a MachineDeployment.
unfoldable pub is_rolled : String → MachineDeployment → Bool
is_rolled step md =
    md.version == step
    && reaches md.up_to_date_replicas md.replicas
    && reaches md.ready_replicas md.replicas

unfoldable pub all_rolled : String → List MachineDeployment → Bool
all_rolled step [] = true
all_rolled step (md ∷ mds) = is_rolled step md && all_rolled step mds
