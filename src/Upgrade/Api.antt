-- ===== src/Upgrade/Api.antt =====
-- The API server as the upgrade controller sees it: the objects of the plan's namespace, and calls
-- that may fail.
use cluster_api_hypervisor.Common.{
  ℕ, String, Bool, true, false, not, ◌&&◌, if◌then◌else◌, List, [], ◌∷◌, Option, none, some, ◌==◌,
  find, select, update,
}
use cluster_api_hypervisor.Exec.{Result, ok, err, other, Exec}
use cluster_api_hypervisor.Exec.Ends.{EndsIn, Ends}
use cluster_api_hypervisor.Upgrade.{Plan, PlanStatus}

-- A reference to an object in the same namespace; `defined` is IsDefined.
pub record Reference : Type 0 where
  pub defined : Bool
  pub kind : String
  pub name : String

-- Cluster of Cluster API, as far as the controller reads it.
pub record Cluster : Type 0 where
  pub name : String
  pub topology_version : String
  pub class_name : String
  pub infrastructure_ref : Reference
  pub control_plane_ref : Reference

-- HypervisorCluster: the versions of its registered images
pub record HypervisorCluster : Type 0 where
  pub name : String
  pub image_versions : List String

-- HypervisorControlPlane
pub record ControlPlane : Type 0 where
  pub name : String
  pub replicas : ℕ
  pub version : String
  pub ready : Bool
  pub ready_replicas : ℕ

-- Machine, with the two labels that it is listed by
pub record Machine : Type 0 where
  pub cluster_name : String
  pub control_plane : Bool
  pub version : String

-- MachineDeployment; `paused` is the presence of the pause annotation.
pub record MachineDeployment : Type 0 where
  pub name : String
  pub cluster_name : String
  pub paused : Bool
  pub version : String
  pub replicas : Option ℕ
  pub up_to_date_replicas : Option ℕ
  pub ready_replicas : Option ℕ

pub record Objects : Type 0 where
  pub plan : Option Plan
  pub clusters : List Cluster
  pub hypervisor_clusters : List HypervisorCluster
  pub control_planes : List ControlPlane
  pub machines : List Machine
  pub deployments : List MachineDeployment

-- The API server: its objects, and which of the calls to come fail for another reason than that an
-- object is missing (past the end none fails).
pub record Api : Type 0 where
  pub objects : Objects
  pub open objects use *
  pub faults : List Bool

abbrev pub Call : Type 0 → Type 0
Call A = Objects → A × Objects

abbrev pub run_call : {A : Type 0} → List Bool → Call A → Api → Result A × Api
run_call [] c s = let (a, o) = c s.objects in (ok a, record { objects = o; faults = [] })
run_call (true ∷ later) c s = (err (other "API call"), record s { faults = later })
run_call (false ∷ later) c s =
    let (a, o) = c s.objects in (ok a, record { objects = o; faults = later })

-- One call; a call that fails changes nothing.
unfoldable pub call : {A : Type 0} → Call A → Exec Api A
call c s = run_call s.faults c s

unfoldable pub get_plan : Exec Api (Option Plan)
get_plan = call (λ o. (o.plan, o))

-- Status().Update of the plan: the status alone is written.
abbrev pub write_status : PlanStatus → Option Plan → Option Plan
write_status status none = none
write_status status (some p) = some (record p { status = status })

unfoldable pub update_status : PlanStatus → Exec Api (Unit {0})
update_status status = call (λ o. (tt, record o { plan = write_status status o.plan }))

-- Update of the plan: what the status holds is not written. A plan that is being deleted is gone with
-- its finalizer; those of others are not modelled.
abbrev pub write_finalizer : Bool → Option Plan → Option Plan
write_finalizer held none = none
write_finalizer held (some p) =
    if p.deleting && not held then none else some (record p { has_finalizer = held })

unfoldable pub update_finalizer : Bool → Exec Api (Unit {0})
update_finalizer held = call (λ o. (tt, record o { plan = write_finalizer held o.plan }))

unfoldable pub get_cluster : String → Exec Api (Option Cluster)
get_cluster name = call (λ o. (find (λ c. c.name == name) o.clusters, o))

unfoldable pub get_hypervisor_cluster : String → Exec Api (Option HypervisorCluster)
get_hypervisor_cluster name = call (λ o. (find (λ c. c.name == name) o.hypervisor_clusters, o))

unfoldable pub get_control_plane : String → Exec Api (Option ControlPlane)
get_control_plane name = call (λ o. (find (λ c. c.name == name) o.control_planes, o))

-- Patch of a Cluster's topology version
unfoldable pub patch_cluster_version : String → String → Exec Api (Unit {0})
patch_cluster_version name version = call (λ o. (
  tt,
  record o {
    clusters =
        update (λ c. c.name == name) (λ c. record c { topology_version = version }) o.clusters;
  },
))

abbrev pub in_cluster : String → MachineDeployment → Bool
in_cluster name md = md.cluster_name == name

unfoldable pub list_deployments : String → Exec Api (List MachineDeployment)
list_deployments name = call (λ o. (select (in_cluster name) o.deployments, o))

unfoldable pub list_control_plane_machines : String → Exec Api (List Machine)
list_control_plane_machines name =
    call (λ o. (select (λ m. m.cluster_name == name && m.control_plane) o.machines, o))

abbrev pub set_paused : Bool → MachineDeployment → MachineDeployment
set_paused paused md = record md { paused = paused }

-- Patch of a MachineDeployment's pause annotation
unfoldable pub patch_paused : Bool → String → Exec Api (Unit {0})
patch_paused paused name = call (λ o. (
  tt,
  record o { deployments = update (λ md. md.name == name) (set_paused paused) o.deployments },
))

module _ {A : Type 0} (P : Objects → Type 0) (c : Call A) (Q : A → Objects → Type 0)
    (E : Objects → Type 0) where
  run_call-Ends :
      ((o : Objects) → P o → Q (c o).0 (c o).1)
      → ((o : Objects) → P o → E o)
      → (faults : List Bool) (s : Api) → P s.objects
      → EndsIn
          (λ a t. Q a t.objects)
          (λ t. E t.objects)
          (run_call faults c s).0
          (run_call faults c s).1
  run_call-Ends h k [] s p = h s.objects p
  run_call-Ends h k (true ∷ later) s p = k s.objects p
  run_call-Ends h k (false ∷ later) s p = h s.objects p

  -- A call either fails and changes no object, or does what it is for.
  pub Ends-call :
      ((o : Objects) → P o → Q (c o).0 (c o).1)
      → ((o : Objects) → P o → E o)
      → Ends (λ s. P s.objects) (call c) (λ a s. Q a s.objects) (λ s. E s.objects)
  unfolding call
  Ends-call h k = record { at = λ s p. run_call-Ends h k s.faults s p }
