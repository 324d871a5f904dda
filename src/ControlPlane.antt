-- ===== src/ControlPlane.antt =====
-- controllers/hypervisorcontrolplane_controller.go: the Machines of a control plane, the replacement of a
-- Machine of another version, and the readiness of the workload cluster. The objects are those of
-- the control plane's namespace.
pub mod Pki
pub mod Server
pub mod Versions
pub mod Machines
pub mod Readiness
pub mod Reconcile
pub mod Steps
pub mod MachineSteps
pub mod ReadinessSteps
pub mod Snapshots
pub mod DriftEnds
pub mod Guards
pub mod Safety
pub mod Runs
pub mod Kubeconfig
pub mod First
pub mod Access
pub mod Counts
use cluster_api_hypervisor.Common.{ℕ, String, Bool, Option, List}
use cluster_api_hypervisor.Common.Int.{ℤ}

-- ContractVersionedObjectReference; `defined` is IsDefined.
pub record Reference : Type 0 where
  pub defined : Bool
  pub api_group : String
  pub kind : String
  pub name : String

-- A Go map from label to value.
abbrev pub Labels : Type 0
Labels = List (String × String)

-- ControlPlaneReplacementStatus
pub record Replacement : Type 0 where
  pub machine_name : String
  pub target_version : String
  pub snapshot_path : String

-- HypervisorControlPlaneSpec, with the labels and the reference of its machine template
pub record PlaneSpec : Type 0 where
  pub replicas : ℤ
  pub version : String
  pub template_labels : Labels
  pub template_ref : Reference

-- HypervisorControlPlaneStatus; of the conditions, whether ControlPlaneReady is true. Initialization
-- stands for the nested field of the same meaning.
pub record PlaneStatus : Type 0 where
  pub ready : Bool
  pub initialized : Bool
  pub initialization : Option Bool
  pub is_condition_ready : Bool
  pub version : Option String
  pub replicas : ℕ
  pub updated_replicas : ℕ
  pub ready_replicas : ℕ
  pub unavailable_replicas : ℕ
  pub replacement : Option Replacement

-- HypervisorControlPlane
pub record Plane : Type 0 where
  pub name : String
  pub uid : String
  pub generation : ℕ
  pub spec : PlaneSpec
  pub status : PlaneStatus

-- Cluster of Cluster API, as far as the controller reads it.
pub record Cluster : Type 0 where
  pub name : String
  pub control_plane_ref : Reference
  pub infrastructure_ref : Reference

-- HypervisorCluster, as far as the controller reads it.
pub record HypervisorCluster : Type 0 where
  pub name : String
  pub uid : String
  pub generation : ℕ
  pub cidr : String

-- Machine; `held` says that it has finalizers, and `deleting` that its deletion was asked for. The owner
-- reference to the control plane is not kept.
pub record Machine : Type 0 where
  pub name : String
  pub held : Bool
  pub deleting : Bool
  pub labels : Labels
  pub cluster_name : String
  pub version : String
  pub config_name : String
  pub infrastructure_name : String

-- HypervisorConfig
pub record Config : Type 0 where
  pub name : String
  pub held : Bool
  pub deleting : Bool
  pub role : String
  pub cluster_name : String
  pub node_name : String
  pub etcd_snapshot_host_path : String

-- HypervisorMachineSpec
pub record MachineSpec : Type 0 where
  pub cluster_name : String
  pub cpu : ℤ
  pub ram : ℤ
  pub disk : ℤ
  pub mac : String
  pub provider_id : Option String
  pub retain_disk_on_delete : Bool

-- MachinePublishedPort
pub record MachinePublishedPort : Type 0 where
  pub vm_port : ℕ
  pub host_port : ℕ

-- HypervisorMachine; an address is its type and its text.
pub record HypervisorMachine : Type 0 where
  pub name : String
  pub held : Bool
  pub deleting : Bool
  pub labels : Labels
  pub cloned_from_name : String
  pub cloned_from_group_kind : String
  pub spec : MachineSpec
  pub ready : Bool
  pub addresses : List (String × String)
  pub published_ports : List MachinePublishedPort

-- HypervisorMachineTemplate: the labels and the spec of the template
pub record MachineTemplate : Type 0 where
  pub name : String
  pub labels : Labels
  pub spec : MachineSpec

-- Secret
pub record Secret : Type 0 where
  pub name : String
  pub labels : Labels
  pub contents : List (String × String)
