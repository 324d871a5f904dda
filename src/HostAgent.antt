-- ===== src/HostAgent.antt =====
-- internal/hostagent/hostagent.go: the requests of the host-agent protocol, what it reports, and
-- the validation that every operation runs first.
use cluster_api_hypervisor.Common.{ℕ, String, Bool, List, ◌||◌, ◌==◌, eqb, if◌then◌else◌}
use cluster_api_hypervisor.Exec.{Result, ok, err, invalid_request, protocol}

abbrev pub protocol_major_version : ℕ
protocol_major_version = 1

pub record Owner : Type 0 where
  pub installation_id : String
  pub node_id : String
  pub uid : String

unfoldable pub validate_owner : Owner → Result (Unit {0})
validate_owner o =
    if o.installation_id == "" || o.node_id == "" || o.uid == "" then err invalid_request else ok tt

pub record Mutation : Type 0 where
  pub protocol_major : ℕ
  pub owner : Owner
  pub generation : ℕ
  pub idempotency_key : String
  pub retain_disk : Bool

validate_request : Mutation → Result (Unit {0})
validate_request m =
    if eqb m.generation 0 || m.idempotency_key == "" then err invalid_request else ok tt

abbrev then_request : Result (Unit {0}) → Mutation → Result (Unit {0})
unfolding validate_request
then_request (ok _) m = validate_request m
then_request (err e) m = err e

-- Mutation.Validate
unfoldable pub validate : Mutation → Result (Unit {0})
unfolding validate_owner validate_request then_request
validate m =
    if eqb m.protocol_major protocol_major_version
    then then_request (validate_owner m.owner) m
    else err protocol

pub record Capabilities : Type 0 where
  pub node_id : String
  pub cloud_hypervisor : String
  pub k8netd_protocol_major : ℕ
  pub can_use_kvm : Bool
  pub can_use_user_dbus : Bool

pub record VmDesired : Type 0 where
  pub uid : String
  pub name : String
  pub image : String
  pub firmware : String
  pub firmware_sha256 : String
  pub api_socket : String
  pub vhost_socket : String
  pub disk : String
  pub mac : String
  pub ip : String
  pub cpus : ℕ
  pub memory_mib : ℕ
  pub additional_disks : List String
  pub disk_sha256 : String
  pub additional_disk_sha256s : List String

pub record VmObserved : Type 0 where
  pub uid : String
  pub unit : String
  pub pid : ℕ
  pub guest_uptime : ℕ
  pub running : Bool
  pub api_socket : String
  pub vhost_socket : String
  pub ip : String
  pub mac : String
  pub generation : ℕ

pub record NetworkRequest : Type 0 where
  pub name : String
  pub cidr : String

pub record PortRequest : Type 0 where
  pub name : String
  pub network : String
  pub mac : String

-- `published` is always the empty map.
pub record PortObserved : Type 0 where
  pub name : String
  pub network : String
  pub mac : String
  pub ip : String
  pub published : List (ℕ × ℕ)

pub record ArtifactResult : Type 0 where
  pub paths : List String
  pub sha256s : List String

-- The content of a file, a byte slice in the source.
pub record ArtifactFile : Type 0 where
  pub name : String
  pub content : String

pub record ProbeLease : Type 0 where
  pub uid : String
  pub network : String
  pub port : String
  pub mac : String
  pub ip : String
  pub expires_at : ℕ

pub record RootDiskRequest : Type 0 where
  pub name : String
  pub source_image : String

pub record Diagnostics : Type 0 where
  pub owner_uid : String
  pub messages : List String
