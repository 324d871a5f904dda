-- ===== src/Rpc.antt =====
-- internal/agentgrpc: the host agent behind gRPC. The agent's interface is HostAgent of
-- internal/hostagent/hostagent.go; a state S stands for all that an implementation may change.
pub mod Messages
pub mod Convert
pub mod Server
pub mod Client
pub mod Remote
pub mod Errors
pub mod Agent
use cluster_api_hypervisor.Common.{ℕ, String, List}
use cluster_api_hypervisor.Exec.{Exec}
use cluster_api_hypervisor.HostAgent.{
  Owner, Mutation, Capabilities, VmDesired, VmObserved, NetworkRequest, PortRequest, PortObserved,
  ProbeLease, Diagnostics, RootDiskRequest, ArtifactFile, ArtifactResult,
}

pub record HostAgent (S : Type 0) : Type 0 where
  pub health : Exec S Capabilities
  pub ensure_vm : Mutation → VmDesired → Exec S VmObserved
  pub get_vm : Owner → Exec S VmObserved
  pub stop_vm : Mutation → Exec S (Unit {0})
  pub delete_vm : Mutation → Exec S (Unit {0})
  pub ensure_network : Mutation → NetworkRequest → Exec S (Unit {0})
  pub delete_network : Mutation → Exec S (Unit {0})
  pub ensure_port : Mutation → PortRequest → Exec S PortObserved
  pub delete_port : Mutation → Exec S (Unit {0})
  pub allocate_ip : Mutation → Exec S String
  pub release_ip : Mutation → String → Exec S (Unit {0})
  pub publish_port : Mutation → ℕ → ℕ → Exec S ℕ
  pub release_port : Mutation → ℕ → ℕ → Exec S (Unit {0})
  pub diagnostics : Owner → Exec S Diagnostics
  pub acquire_probe : Mutation → String → Exec S ProbeLease
  pub release_probe : Mutation → String → Exec S (Unit {0})
  pub prepare_root_disk : Mutation → RootDiskRequest → Exec S ArtifactResult
  pub prepare_cidata : Mutation → String → List ArtifactFile → Exec S ArtifactResult
  pub prepare_confext : Mutation → String → List ArtifactFile → Exec S ArtifactResult
