-- ===== src/Examples/Plans.antt =====
-- Tests of controllers/hypervisorupgradeplan_controller.go.
use cluster_api_hypervisor.Common.{
  ℕ, ◌≤◌, String, true, false, ◌≡◌, refl, some, [], ◌∷◌, find, ◌==◌, if◌then◌else◌,
}
use cluster_api_hypervisor.Upgrade.{
  Phase, unset, completed, rolling_control_plane, PlanStatus, Plan, less, same, Semver, terminal,
}
use cluster_api_hypervisor.Upgrade.Versions.{
  resolve_upgrade_steps, check_version_advance, missing_image_versions, contains, initial_steps,
}
use cluster_api_hypervisor.Upgrade.Api.{
  Reference, Api, call, get_plan, get_cluster, get_hypervisor_cluster, get_control_plane,
  update_status,
}
use cluster_api_hypervisor.Exec.{◌>>=◌}
use cluster_api_hypervisor.Upgrade.Reconcile.{
  reconcile, reconcile_plan, reconcile_on, reconcile_phase, begin_plan, begin_with_infrastructure,
  begin_with_control_plane, preflight, start_unless_missing, is_advancing,
}
use cluster_api_hypervisor.Upgrade.Calls.{
  Library, target_cluster, linked_hypervisor_cluster, control_plane_of, current_cluster_version,
}
use cluster_api_hypervisor.Upgrade.Edges.{Moved}
use cluster_api_hypervisor.Upgrade.Progress.{reconcile-Moved}
use cluster_api_hypervisor.Upgrade.Runs.{
  Run, IsSound, progress, run-IsSound, run-progress, run-settled,
}
use cluster_api_hypervisor.Common.{select}
use cluster_api_hypervisor.Exec.{ok}
use cluster_api_hypervisor.Upgrade.Api.{
  Cluster, MachineDeployment, list_deployments, patch_paused, patch_cluster_version,
  update_finalizer,
}
use cluster_api_hypervisor.Upgrade.Reconcile.{
  patch_topology_version, reconcile_control_plane_step, reconcile_delete, unpause_if_found,
}
use cluster_api_hypervisor.Upgrade.Calls.{
  done, requeue, is_as_wanted, patch_each, set_machine_deployments_paused,
}
use cluster_api_hypervisor.Upgrade.Pausing.{AllPaused}
use cluster_api_hypervisor.Upgrade.PausingLaws.{
  IsReleased, reconcile_control_plane_step-AllPaused, reconcile_delete-IsReleased,
}

abbrev versions : Semver
versions = record { is_valid = λ _. true; compare = λ a b. if a == b then same else less }

abbrev library : Library
library = record {
  semver = versions;
  set_status_condition = λ c cs. c ∷ cs;
  describe = λ reason plan. reason;
}

abbrev status_of : Phase → ℕ → PlanStatus
status_of phase step = record {
  phase = phase;
  from_version = "";
  current_step = step;
  steps = [];
  failure_reason = "";
  failure_message = "";
  conditions = [];
}

abbrev plan_of : PlanStatus → Plan
plan_of status = record {
  name = "up";
  namespace = "default";
  deleting = false;
  has_finalizer = true;
  spec = record { cluster_name = "c1"; to_version = "v1.31.0"; steps = [] };
  status = status;
}

abbrev reference : String → Reference
reference kind = record { defined = true; kind = kind; name = "c1" }

abbrev api_of : Plan → Api
api_of plan = record {
  objects = record {
    plan = some plan;
    clusters =
        record {
          name = "c1";
          topology_version = "v1.30.0";
          class_name = "class";
          infrastructure_ref = reference "HypervisorCluster";
          control_plane_ref = reference "HypervisorControlPlane";
        }
        ∷ [];
    hypervisor_clusters = record { name = "c1"; image_versions = "v1.30.0" ∷ "v1.31.0" ∷ [] } ∷ [];
    control_planes =
        record { name = "c1"; replicas = 1; version = "v1.30.0"; ready = true; ready_replicas = 1 }
        ∷ [];
    machines = [];
    deployments = [];
  };
  faults = [];
}

abbrev fresh : Plan
fresh = plan_of (status_of unset 0)

reconcile-Moved_example :
    Moved library (api_of fresh).objects fresh (reconcile library (api_of fresh)).1.objects
reconcile-Moved_example = reconcile-Moved library fresh (api_of fresh) refl

abbrev begun : Plan
begun = record fresh {
  status = record {
    phase = rolling_control_plane;
    from_version = "v1.30.0";
    current_step = 0;
    steps = initial_steps (resolve_upgrade_steps fresh.spec);
    failure_reason = "";
    failure_message = "";
    conditions =
        record {
          kind = "Progressing";
          status = true;
          reason = "UpgradeStarted";
          message = "v1.30.0";
        }
        ∷ [];
  };
}

first_reconcile : (reconcile library (api_of fresh)).1.objects.plan ≡ some begun
unfolding reconcile get_plan call reconcile_plan terminal target_cluster get_cluster find
    reconcile_on reconcile_phase begin_plan linked_hypervisor_cluster get_hypervisor_cluster
    begin_with_infrastructure control_plane_of get_control_plane begin_with_control_plane preflight
    is_advancing current_cluster_version check_version_advance missing_image_versions contains
    resolve_upgrade_steps start_unless_missing update_status ◌>>=◌
first_reconcile = refl

abbrev one_reconcile : Run library (api_of fresh) (reconcile library (api_of fresh)).1
one_reconcile = Run.reconciled (api_of fresh) Run.stop

run-IsSound_example : (begun.spec ≡ fresh.spec) × IsSound fresh.spec begun.status
run-IsSound_example =
    run-IsSound library (api_of fresh) (reconcile library (api_of fresh)).1 fresh begun refl
      first_reconcile tt one_reconcile

run-progress_example : progress fresh.spec fresh.status ≤ progress fresh.spec begun.status
run-progress_example =
    run-progress library (api_of fresh) (reconcile library (api_of fresh)).1 fresh begun refl
      first_reconcile tt one_reconcile

abbrev over : Plan
over = plan_of (status_of completed 0)

one_step : IsSound over.spec over.status
unfolding resolve_upgrade_steps
one_step = refl

last_reconcile : (reconcile library (api_of over)).1.objects.plan ≡ some over
unfolding reconcile get_plan call reconcile_plan terminal ◌>>=◌
last_reconcile = refl

ends_over : terminal over.status.phase ≡ true
unfolding terminal
ends_over = refl

run-settled_example : over.status ≡ over.status
run-settled_example =
    run-settled library (api_of over) (reconcile library (api_of over)).1 over over refl
      last_reconcile one_step ends_over (Run.reconciled (api_of over) Run.stop)

abbrev rolling : Plan
rolling = plan_of (status_of rolling_control_plane 0)

abbrev worker : MachineDeployment
worker = record {
  name = "md";
  cluster_name = "c1";
  paused = false;
  version = "v1.30.0";
  replicas = some 1;
  up_to_date_replicas = some 1;
  ready_replicas = some 1;
}

abbrev frozen : MachineDeployment
frozen = record worker { paused = true }

abbrev the_cluster : Cluster
the_cluster = record {
  name = "c1";
  topology_version = "v1.30.0";
  class_name = "class";
  infrastructure_ref = reference "HypervisorCluster";
  control_plane_ref = reference "HypervisorControlPlane";
}

abbrev with_workers : MachineDeployment → Plan → Api
with_workers md plan = record {
  objects = record {
    plan = some plan;
    clusters = the_cluster ∷ [];
    hypervisor_clusters = [];
    control_planes = [];
    machines = [];
    deployments = md ∷ [];
  };
  faults = [];
}

paused_first :
    (reconcile_control_plane_step library rolling the_cluster "v1.31.0"
      (with_workers worker rolling)).0
    ≡ ok requeue
unfolding reconcile_control_plane_step set_machine_deployments_paused list_deployments call select
    patch_each is_as_wanted patch_paused patch_topology_version patch_cluster_version ◌>>=◌
paused_first = refl

reconcile_control_plane_step-AllPaused_example :
    AllPaused true "c1"
      (reconcile_control_plane_step library rolling the_cluster "v1.31.0"
        (with_workers worker rolling)).1.objects
reconcile_control_plane_step-AllPaused_example =
    reconcile_control_plane_step-AllPaused library rolling the_cluster "v1.31.0"
      (with_workers worker rolling) requeue paused_first

let_go : (reconcile_delete library rolling (with_workers frozen rolling)).0 ≡ ok done
unfolding reconcile_delete target_cluster get_cluster find unpause_if_found
    set_machine_deployments_paused list_deployments call select patch_each is_as_wanted patch_paused
    update_finalizer ◌>>=◌
let_go = refl

reconcile_delete-IsReleased_example :
    IsReleased rolling (reconcile_delete library rolling (with_workers frozen rolling)).1.objects
reconcile_delete-IsReleased_example =
    reconcile_delete-IsReleased library rolling (with_workers frozen rolling) done let_go
