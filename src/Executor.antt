-- ===== src/Executor.antt =====
-- internal/agent/executor/executor.go: the host agent that runs operations on the host.
pub mod Journal
pub mod Steps
pub mod Triples
pub mod Ports
pub mod PortJournal
pub mod PortClaims
pub mod PortRelease
pub mod PortAccess
pub mod Publishing
pub mod PublishLaws
pub mod PublishReplay
pub mod Vms
pub mod VmLaws
pub mod EnsureVm
pub mod EnsureSteps
pub mod EnsureLaws
pub mod Artifacts
pub mod Networks
use cluster_api_hypervisor.Common.{
  ℕ, String, Bool, true, false, not, ◌||◌, Option, List, if◌then◌else◌,
}
use cluster_api_hypervisor.Common.Int.{ℤ}
use cluster_api_hypervisor.Exec.{
  Error, Result, ok, err, Exec, pure, raise, no_rows, net_not_found, net_already_exists,
  idempotency_conflict,
}
use cluster_api_hypervisor.HostAgent.{Mutation, ArtifactFile, ArtifactResult, VmObserved}
use cluster_api_hypervisor.Inventory.{Store}

-- artifact.Manifest: the images by reference, and the path and checksum of the firmware
pub record Manifest : Type 0 where
  pub images : List (String × String)
  pub firmware_path : String
  pub firmware_sha256 : String

-- The four bytes of an IPv4 address.
pub record Address : Type 0 where
  pub a : ℕ
  pub b : ℕ
  pub c : ℕ
  pub d : ℕ

-- netip.Prefix, as far as EnsureNetwork asks: Addr().Is4(), Bits(), and Masked().Addr().As4().
pub record Prefix : Type 0 where
  pub is_four : Bool
  pub bits : ℕ
  pub masked : Address

-- ch.VmConfig; a disk is its path and whether it is read-only. The memory size is an int64 in bytes.
pub record VmConfig : Type 0 where
  pub firmware : String
  pub boot_vcpus : ℕ
  pub max_vcpus : ℕ
  pub memory_size : ℕ
  pub disks : List (String × Bool)
  pub vhost_socket : String
  pub mac : String

-- NetworkClient, over the state N of the network daemon k8netd. PublishPort returns an int32.
pub record NetworkClient (N : Type 0) : Type 0 where
  pub create_network : String → String → String → String → String → Exec N (Unit {0})
  pub delete_network : String → Exec N (Unit {0})
  pub create_port : String → Exec N (Unit {0})
  pub delete_port : String → Exec N (Unit {0})
  pub attach_port : String → String → String → Exec N (Unit {0})
  pub detach_port : String → Exec N (Unit {0})
  pub allocate_ip : String → String → Exec N String
  pub release_ip : String → String → Exec N (Unit {0})
  pub publish_port : String → ℕ → Exec N ℤ
  pub unpublish_port : String → ℕ → Exec N (Unit {0})

-- The state that Info reports of a VM.
pub data VmState : Type 0 where
  running created : VmState
  other_state : String → VmState

-- What the executor does to its host, over the host's state H: user systemd, the API socket of a
-- Cloud Hypervisor process, and the files of the artifact root.
pub record HostClient (H : Type 0) : Type 0 where
  -- os.MkdirAll of the directory of an API socket
  pub make_socket_directory : String → Exec H (Unit {0})
  -- systemd.Install of a unit for an owner; the PID of the unit
  pub install_unit : Mutation → String → String → Exec H ℕ
  pub get_unit : String → Exec H ℕ
  pub stop_unit : String → Exec H (Unit {0})
  -- waitForSocket
  pub wait_for_socket : String → Exec H (Unit {0})
  -- os.Stat of a path succeeds
  pub socket_exists : String → Exec H Bool
  -- ch.Client, by API socket
  pub vm_info : String → Exec H VmState
  pub vm_create : String → VmConfig → Exec H (Unit {0})
  pub vm_boot : String → Exec H (Unit {0})
  pub vm_delete : String → Exec H (Unit {0})
  pub vm_shutdown : String → Exec H (Unit {0})
  -- artifact.Builder.Verify, artifact.VerifyOwnedPath, artifact.VerifyOwnedFile
  pub verify : List String → List String → Exec H (Unit {0})
  pub verify_owned_path : String → String → Exec H (Unit {0})
  pub verify_owned_file : String → String → String → Exec H (Unit {0})
  -- artifact.Builder.PrepareRootDisk and PrepareCIDATA, digestFile, and confext.Packager
  pub prepare_root_disk : String → String → Exec H String
  pub prepare_cidata : String → List ArtifactFile → Exec H (String × String)
  pub digest_file : String → Exec H String
  pub write_tree : List ArtifactFile → String → Exec H (Unit {0})
  pub build_raws : String → String → Exec H (List String)
  -- filepath.Rel of a path from a root stays below the root
  pub is_within : String → String → Bool
  -- os.RemoveAll, whose error is dropped
  pub remove_all : String → H → H
  -- the entries of the directory of a root disk whose names begin with the disk's prefix
  pub siblings : String → H → List String

-- The Executor struct. `Network` and `Store` may be nil.
pub record Executor (N H : Type 0) : Type 0 where
  pub network : NetworkClient N
  pub host : HostClient H
  pub has_network : Bool
  pub has_store : Bool
  pub has_systemd : Bool
  pub node_id : String
  pub kvm_path : String
  pub k8netd_socket : String
  pub cloud_hypervisor : String
  pub unit_dir : String
  pub firmware_root : String
  pub artifact_root : String
  pub manifest : Option Manifest
  -- operationHash: the hex SHA-256 of the JSON of the kind, the mutation and the inputs
  pub operation_hash : String → Mutation → List ℕ → String
  -- err.Error()
  pub error_text : Error → String
  -- json.Marshal and json.Unmarshal of a uint32
  pub encode_port : ℕ → String
  pub decode_port : String → Result ℕ
  -- json.Marshal of a VMObserved; json.Marshal and json.Unmarshal of an ArtifactResult, and what an
  -- Unmarshal leaves in a zero ArtifactResult when its error is dropped
  pub encode_vm : VmObserved → String
  pub encode_artifact : ArtifactResult → String
  pub decode_artifact : String → Result ArtifactResult
  pub fill_artifact : String → ArtifactResult
  -- filepath.Join of two names
  pub join : String → String → String
  -- strings.TrimSpace leaves nothing
  pub is_blank : String → Bool
  -- strings.Contains(strings.ToLower(body), text)
  pub mentions : String → String → Bool
  -- netip.ParsePrefix, and the String of an address of four bytes
  pub parse_prefix : String → Result Prefix
  pub format_address : Address → String
  -- the message of Diagnostics
  pub describe_vm : VmObserved → String

-- All state that an operation may change.
pub record World (N H : Type 0) : Type 0 where
  pub store : Store
  pub net : N
  pub machine : H

module _ {N H A : Type 0} where
  unfoldable pub on_store : Exec Store A → Exec (World N H) A
  on_store m w = let (r, s) = m w.store in (r, record w { store = s })

  unfoldable pub on_network : Exec N A → Exec (World N H) A
  on_network m w = let (r, n) = m w.net in (r, record w { net = n })

  unfoldable pub on_machine : Exec H A → Exec (World N H) A
  on_machine m w = let (r, h) = m w.machine in (r, record w { machine = h })

-- errors.Is
unfoldable pub is_no_rows : Error → Bool
is_no_rows no_rows = true
is_no_rows _ = false

unfoldable pub is_net_not_found : Error → Bool
is_net_not_found net_not_found = true
is_net_not_found _ = false

unfoldable pub is_net_already_exists : Error → Bool
is_net_already_exists net_already_exists = true
is_net_already_exists _ = false

unfoldable pub is_idempotency_conflict : Error → Bool
is_idempotency_conflict idempotency_conflict = true
is_idempotency_conflict _ = false

-- `if err != nil && !errors.Is(err, ...) { return err }`
unfoldable pub tolerate : {S : Type 0} → (Error → Bool) → Result (Unit {0}) → Exec S (Unit {0})
tolerate p (ok _) = pure tt
tolerate p (err e) = if p e then pure tt else raise e
