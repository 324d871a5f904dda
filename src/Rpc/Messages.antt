-- ===== src/Rpc/Messages.antt =====
-- The messages of api/agent/v1/agent.proto: a message inside another may be missing.
use cluster_api_hypervisor.Common.{ℕ, String, Bool, Option, List}

pub record OwnerMessage : Type 0 where
  pub installation_id : String
  pub node_id : String
  pub uid : String

pub record MutationMessage : Type 0 where
  pub protocol_major : ℕ
  pub owner : Option OwnerMessage
  pub generation : ℕ
  pub idempotency_key : String
  pub retain_disk : Bool

pub record HealthRequest : Type 0 where
  pub protocol_major : ℕ

pub record CapabilitiesMessage : Type 0 where
  pub protocol_major : ℕ
  pub node_id : String
  pub cloud_hypervisor : String
  pub k8netd_protocol_major : ℕ
  pub can_use_kvm : Bool
  pub can_use_user_dbus : Bool

pub record VmDesiredMessage : Type 0 where
  pub uid : String
  pub name : String
  pub image : String
  pub firmware : String
  pub firmware_sha256 : String
  pub api_socket : String
  pub vhost_socket : String
  pub disk : String
  pub mac : String
  pub ip : String
  pub cpus : ℕ
  pub memory_mib : ℕ
  pub additional_disks : List String
  pub disk_sha256 : String
  pub additional_disk_sha256 : List String

pub record VmObservedMessage : Type 0 where
  pub uid : String
  pub unit : String
  pub pid : ℕ
  pub guest_uptime : ℕ
  pub running : Bool
  pub api_socket : String
  pub vhost_socket : String
  pub ip : String
  pub mac : String
  pub generation : ℕ

pub record NetworkMessage : Type 0 where
  pub name : String
  pub cidr : String

pub record PortMessage : Type 0 where
  pub name : String
  pub network : String
  pub mac : String

pub record PortObservedMessage : Type 0 where
  pub name : String
  pub network : String
  pub mac : String
  pub ip : String
  pub published : List (ℕ × ℕ)

pub record DiagnosticsMessage : Type 0 where
  pub owner_uid : String
  pub messages : List String

pub record ProbeLeaseMessage : Type 0 where
  pub uid : String
  pub network : String
  pub port : String
  pub mac : String
  pub ip : String
  pub expires_at : ℕ

pub record FileMessage : Type 0 where
  pub name : String
  pub content : String

-- The requests; a response is the message that it holds.
pub record EnsureVmRequest : Type 0 where
  pub mutation : Option MutationMessage
  pub desired : Option VmDesiredMessage

-- GetVMRequest and DiagnosticsRequest
pub record OwnerRequest : Type 0 where
  pub owner : Option OwnerMessage
  pub protocol_major : ℕ

pub record MutationRequest : Type 0 where
  pub mutation : Option MutationMessage

pub record EnsureNetworkRequest : Type 0 where
  pub mutation : Option MutationMessage
  pub network : Option NetworkMessage

pub record EnsurePortRequest : Type 0 where
  pub mutation : Option MutationMessage
  pub port : Option PortMessage

-- ReleaseIPRequest, AcquireProbeRequest and ReleaseProbeRequest
pub record NamedRequest : Type 0 where
  pub mutation : Option MutationMessage
  pub name : String

-- PublishPortRequest and ReleasePortRequest
pub record MappingRequest : Type 0 where
  pub mutation : Option MutationMessage
  pub guest_port : ℕ
  pub host_port : ℕ

pub record PrepareRootDiskRequest : Type 0 where
  pub mutation : Option MutationMessage
  pub name : String
  pub source_image : String

-- PrepareCIDATARequest and PrepareConfextRequest
pub record FilesRequest : Type 0 where
  pub mutation : Option MutationMessage
  pub name : String
  pub files : List FileMessage

pub record ArtifactMessage : Type 0 where
  pub paths : List String
  pub sha256 : List String
