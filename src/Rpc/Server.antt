-- ===== src/Rpc/Server.antt =====
-- internal/agentgrpc/server.go: a handler per request, which converts it, calls the host agent, and
-- answers with a message or a gRPC status.
use cluster_api_hypervisor.Common.{
  ℕ, String, not, ◌||◌, Option, none, some, ◌==◌, eqb, length, if◌then◌else◌,
}
use cluster_api_hypervisor.Exec.{
  invalid_request, protocol, unavailable, Exec, pure, raise, lift, ◌>>=◌,
}
use cluster_api_hypervisor.HostAgent.{protocol_major_version, Capabilities}
use cluster_api_hypervisor.Rpc.{HostAgent}
use cluster_api_hypervisor.Rpc.Messages.{
  HealthRequest, CapabilitiesMessage, VmDesiredMessage, VmObservedMessage, NetworkMessage,
  PortMessage, PortObservedMessage, DiagnosticsMessage, ProbeLeaseMessage, EnsureVmRequest,
  OwnerRequest, MutationRequest, EnsureNetworkRequest, EnsurePortRequest, NamedRequest,
  MappingRequest, PrepareRootDiskRequest, FilesRequest, ArtifactMessage,
}
use cluster_api_hypervisor.Rpc.Convert.{
  mutation_from, owner_from, vm_desired_from, vm_observed_to, port_observed_to, probe_lease_to,
  files_from, artifact_to, rpc_error, with_errors,
}

-- HostAgentServer and HostAgentClient of the generated stubs.
pub record Service (S : Type 0) : Type 0 where
  pub health : HealthRequest → Exec S CapabilitiesMessage
  pub ensure_vm : EnsureVmRequest → Exec S VmObservedMessage
  pub get_vm : OwnerRequest → Exec S VmObservedMessage
  pub stop_vm : MutationRequest → Exec S (Unit {0})
  pub delete_vm : MutationRequest → Exec S (Unit {0})
  pub ensure_network : EnsureNetworkRequest → Exec S (Unit {0})
  pub delete_network : MutationRequest → Exec S (Unit {0})
  pub ensure_port : EnsurePortRequest → Exec S PortObservedMessage
  pub delete_port : MutationRequest → Exec S (Unit {0})
  pub allocate_ip : MutationRequest → Exec S String
  pub release_ip : NamedRequest → Exec S (Unit {0})
  pub publish_port : MappingRequest → Exec S ℕ
  pub release_port : MappingRequest → Exec S (Unit {0})
  pub diagnostics : OwnerRequest → Exec S DiagnosticsMessage
  pub acquire_probe : NamedRequest → Exec S ProbeLeaseMessage
  pub release_probe : NamedRequest → Exec S (Unit {0})
  pub prepare_root_disk : PrepareRootDiskRequest → Exec S ArtifactMessage
  pub prepare_cidata : FilesRequest → Exec S ArtifactMessage
  pub prepare_confext : FilesRequest → Exec S ArtifactMessage

module _ {S : Type 0} where
  -- unavailableAgent
  unfoldable pub unavailable_agent : HostAgent S
  unavailable_agent = record {
    health = raise unavailable;
    ensure_vm = λ _ _. raise unavailable;
    get_vm = λ _. raise unavailable;
    stop_vm = λ _. raise unavailable;
    delete_vm = λ _. raise unavailable;
    ensure_network = λ _ _. raise unavailable;
    delete_network = λ _. raise unavailable;
    ensure_port = λ _ _. raise unavailable;
    delete_port = λ _. raise unavailable;
    allocate_ip = λ _. raise unavailable;
    release_ip = λ _ _. raise unavailable;
    publish_port = λ _ _ _. raise unavailable;
    release_port = λ _ _ _. raise unavailable;
    diagnostics = λ _. raise unavailable;
    acquire_probe = λ _ _. raise unavailable;
    release_probe = λ _ _. raise unavailable;
    prepare_root_disk = λ _ _. raise unavailable;
    prepare_cidata = λ _ _ _. raise unavailable;
    prepare_confext = λ _ _ _. raise unavailable;
  }

  -- host
  unfoldable pub host : Option (HostAgent S) → HostAgent S
  host none = unavailable_agent
  host (some agent) = agent

  -- `if err != nil { return nil, rpcError(err) }`
  unfoldable pub handled : {A : Type 0} → Exec S A → Exec S A
  handled m = with_errors rpc_error m

  abbrev reported : Capabilities → Option (HostAgent S) → Exec S Capabilities
  reported configured none = pure configured
  reported configured (some agent) = agent.health

  -- Health
  unfoldable pub handle_health :
      Capabilities → Option (HostAgent S) → HealthRequest → Exec S CapabilitiesMessage
  handle_health configured agent req = handled (
      if not (eqb req.protocol_major protocol_major_version) then raise protocol else do
        c ← reported configured agent
        pure record {
          protocol_major = protocol_major_version;
          node_id = c.node_id;
          cloud_hypervisor = c.cloud_hypervisor;
          k8netd_protocol_major = c.k8netd_protocol_major;
          can_use_kvm = c.can_use_kvm;
          can_use_user_dbus = c.can_use_user_dbus;
        })

  module _ (agent : HostAgent S) where
    abbrev ensure_desired : EnsureVmRequest → Option VmDesiredMessage → Exec S VmObservedMessage
    ensure_desired req none = raise invalid_request
    ensure_desired req (some desired) = do
      m ← lift (mutation_from req.mutation)
      observed ← agent.ensure_vm m (vm_desired_from desired)
      pure (vm_observed_to observed)

    -- EnsureVM
    unfoldable pub handle_ensure_vm : EnsureVmRequest → Exec S VmObservedMessage
    handle_ensure_vm req = handled (ensure_desired req req.desired)

    -- GetVM
    unfoldable pub handle_get_vm : OwnerRequest → Exec S VmObservedMessage
    handle_get_vm req = handled do
      owner ← lift (owner_from req.owner req.protocol_major)
      observed ← agent.get_vm owner
      pure (vm_observed_to observed)

    -- StopVM
    unfoldable pub handle_stop_vm : MutationRequest → Exec S (Unit {0})
    handle_stop_vm req = handled do m ← lift (mutation_from req.mutation); agent.stop_vm m

    -- DeleteVM
    unfoldable pub handle_delete_vm : MutationRequest → Exec S (Unit {0})
    handle_delete_vm req = handled do m ← lift (mutation_from req.mutation); agent.delete_vm m

    abbrev ensure_named : EnsureNetworkRequest → Option NetworkMessage → Exec S (Unit {0})
    ensure_named req none = raise invalid_request
    ensure_named req (some network) = do
      m ← lift (mutation_from req.mutation)
      agent.ensure_network m record { name = network.name; cidr = network.cidr }

    -- EnsureNetwork
    unfoldable pub handle_ensure_network : EnsureNetworkRequest → Exec S (Unit {0})
    handle_ensure_network req = handled (ensure_named req req.network)

    -- DeleteNetwork
    unfoldable pub handle_delete_network : MutationRequest → Exec S (Unit {0})
    handle_delete_network req =
        handled do m ← lift (mutation_from req.mutation); agent.delete_network m

    abbrev ensure_attached : EnsurePortRequest → Option PortMessage → Exec S PortObservedMessage
    ensure_attached req none = raise invalid_request
    ensure_attached req (some port) = do
      m ← lift (mutation_from req.mutation)
      observed ←
          agent.ensure_port m record { name = port.name; network = port.network; mac = port.mac }
      pure (port_observed_to observed)

    -- EnsurePort
    unfoldable pub handle_ensure_port : EnsurePortRequest → Exec S PortObservedMessage
    handle_ensure_port req = handled (ensure_attached req req.port)

    -- DeletePort
    unfoldable pub handle_delete_port : MutationRequest → Exec S (Unit {0})
    handle_delete_port req = handled do m ← lift (mutation_from req.mutation); agent.delete_port m

    -- AllocateIP
    unfoldable pub handle_allocate_ip : MutationRequest → Exec S String
    handle_allocate_ip req = handled do m ← lift (mutation_from req.mutation); agent.allocate_ip m

    -- ReleaseIP
    unfoldable pub handle_release_ip : NamedRequest → Exec S (Unit {0})
    handle_release_ip req = handled do
      m ← lift (mutation_from req.mutation)
      if req.name == "" then raise invalid_request else agent.release_ip m req.name

    -- PublishPort
    unfoldable pub handle_publish_port : MappingRequest → Exec S ℕ
    handle_publish_port req =
        handled do
          m ← lift (mutation_from req.mutation)
          agent.publish_port m req.guest_port req.host_port

    -- ReleasePort
    unfoldable pub handle_release_port : MappingRequest → Exec S (Unit {0})
    handle_release_port req =
        handled do
          m ← lift (mutation_from req.mutation)
          agent.release_port m req.guest_port req.host_port

    -- Diagnostics
    unfoldable pub handle_diagnostics : OwnerRequest → Exec S DiagnosticsMessage
    handle_diagnostics req = handled do
      owner ← lift (owner_from req.owner req.protocol_major)
      d ← agent.diagnostics owner
      pure record { owner_uid = d.owner_uid; messages = d.messages }

    -- AcquireProbe
    unfoldable pub handle_acquire_probe : NamedRequest → Exec S ProbeLeaseMessage
    handle_acquire_probe req = handled do
      m ← lift (mutation_from req.mutation)
      if req.name == ""
          then raise invalid_request
          else do lease ← agent.acquire_probe m req.name; pure (probe_lease_to lease)

    -- ReleaseProbe
    unfoldable pub handle_release_probe : NamedRequest → Exec S (Unit {0})
    handle_release_probe req = handled do
      m ← lift (mutation_from req.mutation)
      if req.name == "" then raise invalid_request else agent.release_probe m req.name

    -- PrepareRootDisk
    unfoldable pub handle_prepare_root_disk : PrepareRootDiskRequest → Exec S ArtifactMessage
    handle_prepare_root_disk req = handled do
      m ← lift (mutation_from req.mutation)
      if req.name == "" || req.source_image == "" then raise invalid_request else do
        r ← agent.prepare_root_disk m record { name = req.name; source_image = req.source_image }
        pure (artifact_to r)

    -- PrepareCIDATA
    unfoldable pub handle_prepare_cidata : FilesRequest → Exec S ArtifactMessage
    handle_prepare_cidata req = handled do
      m ← lift (mutation_from req.mutation)
      if req.name == "" || eqb (length (files_from req.files)) 0
          then raise invalid_request
          else do r ← agent.prepare_cidata m req.name (files_from req.files); pure (artifact_to r)

    -- PrepareConfext
    unfoldable pub handle_prepare_confext : FilesRequest → Exec S ArtifactMessage
    handle_prepare_confext req = handled do
      m ← lift (mutation_from req.mutation)
      if req.name == "" || eqb (length (files_from req.files)) 0
          then raise invalid_request
          else do r ← agent.prepare_confext m req.name (files_from req.files); pure (artifact_to r)

  -- The Server struct, by its fields Capabilities and Host.
  abbrev pub server : Capabilities → Option (HostAgent S) → Service S
  server configured agent = record {
    health = handle_health configured agent;
    ensure_vm = handle_ensure_vm (host agent);
    get_vm = handle_get_vm (host agent);
    stop_vm = handle_stop_vm (host agent);
    delete_vm = handle_delete_vm (host agent);
    ensure_network = handle_ensure_network (host agent);
    delete_network = handle_delete_network (host agent);
    ensure_port = handle_ensure_port (host agent);
    delete_port = handle_delete_port (host agent);
    allocate_ip = handle_allocate_ip (host agent);
    release_ip = handle_release_ip (host agent);
    publish_port = handle_publish_port (host agent);
    release_port = handle_release_port (host agent);
    diagnostics = handle_diagnostics (host agent);
    acquire_probe = handle_acquire_probe (host agent);
    release_probe = handle_release_probe (host agent);
    prepare_root_disk = handle_prepare_root_disk (host agent);
    prepare_cidata = handle_prepare_cidata (host agent);
    prepare_confext = handle_prepare_confext (host agent);
  }
