-- ===== src/Rpc/Client.antt =====
-- internal/agentgrpc/client.go: the host agent's interface over the stub of the service.
use cluster_api_hypervisor.Common.{ℕ, String, some, List, ◌==◌, if◌then◌else◌}
use cluster_api_hypervisor.Exec.{invalid_request, Exec, pure, raise, lift, ◌>>=◌, ◌>>◌}
use cluster_api_hypervisor.HostAgent.{
  Owner, Mutation, protocol_major_version, validate_owner, validate, Capabilities, VmDesired,
  VmObserved, NetworkRequest, PortRequest, PortObserved, ProbeLease, Diagnostics, RootDiskRequest,
  ArtifactFile, ArtifactResult,
}
use cluster_api_hypervisor.Rpc.{HostAgent}
use cluster_api_hypervisor.Rpc.Messages.{MutationRequest, OwnerRequest}
use cluster_api_hypervisor.Rpc.Convert.{
  owner_to, mutation_to, vm_desired_to, vm_observed_from, port_observed_from, probe_lease_from,
  files_to, artifact_from, map_error, with_errors,
}
use cluster_api_hypervisor.Rpc.Server.{Service}

abbrev request : Mutation → MutationRequest
request m = record { mutation = some (mutation_to m) }

abbrev owner_request : Owner → OwnerRequest
owner_request o = record { owner = some (owner_to o); protocol_major = protocol_major_version }

module _ {S : Type 0} where
  -- `if err != nil { return ..., mapError(err) }`
  unfoldable pub received : {A : Type 0} → Exec S A → Exec S A
  received m = with_errors map_error m

  module _ (service : Service S) where
    -- Health
    unfoldable pub call_health : Exec S Capabilities
    call_health = do
      c ← received (service.health record { protocol_major = protocol_major_version })
      pure record {
        node_id = c.node_id;
        cloud_hypervisor = c.cloud_hypervisor;
        k8netd_protocol_major = c.k8netd_protocol_major;
        can_use_kvm = c.can_use_kvm;
        can_use_user_dbus = c.can_use_user_dbus;
      }

    -- EnsureVM
    unfoldable pub call_ensure_vm : Mutation → VmDesired → Exec S VmObserved
    call_ensure_vm m desired = do
      lift (validate m)
      v ← received (
          service.ensure_vm
            record { mutation = some (mutation_to m); desired = some (vm_desired_to desired) })
      pure (vm_observed_from v)

    -- GetVM
    unfoldable pub call_get_vm : Owner → Exec S VmObserved
    call_get_vm o = do
      lift (validate_owner o)
      v ← received (service.get_vm (owner_request o))
      pure (vm_observed_from v)

    -- StopVM
    unfoldable pub call_stop_vm : Mutation → Exec S (Unit {0})
    call_stop_vm m = received (service.stop_vm (request m))

    -- DeleteVM
    unfoldable pub call_delete_vm : Mutation → Exec S (Unit {0})
    call_delete_vm m = received (service.delete_vm (request m))

    -- EnsureNetwork
    unfoldable pub call_ensure_network : Mutation → NetworkRequest → Exec S (Unit {0})
    call_ensure_network m n = do
      lift (validate m)
      received (
          service.ensure_network record {
            mutation = some (mutation_to m);
            network = some record { name = n.name; cidr = n.cidr };
          })

    -- DeleteNetwork
    unfoldable pub call_delete_network : Mutation → Exec S (Unit {0})
    call_delete_network m = received (service.delete_network (request m))

    -- EnsurePort
    unfoldable pub call_ensure_port : Mutation → PortRequest → Exec S PortObserved
    call_ensure_port m p = do
      lift (validate m)
      v ← received (
          service.ensure_port record {
            mutation = some (mutation_to m);
            port = some record { name = p.name; network = p.network; mac = p.mac };
          })
      pure (port_observed_from v)

    -- DeletePort
    unfoldable pub call_delete_port : Mutation → Exec S (Unit {0})
    call_delete_port m = received (service.delete_port (request m))

    -- AllocateIP
    unfoldable pub call_allocate_ip : Mutation → Exec S String
    call_allocate_ip m = do lift (validate m); received (service.allocate_ip (request m))

    -- ReleaseIP
    unfoldable pub call_release_ip : Mutation → String → Exec S (Unit {0})
    call_release_ip m ip = do
      lift (validate m)
      if ip == ""
          then raise invalid_request
          else received (service.release_ip record { mutation = some (mutation_to m); name = ip })

    -- PublishPort
    unfoldable pub call_publish_port : Mutation → ℕ → ℕ → Exec S ℕ
    call_publish_port m guest host = do
      lift (validate m)
      received (
          service.publish_port
            record { mutation = some (mutation_to m); guest_port = guest; host_port = host })

    -- ReleasePort
    unfoldable pub call_release_port : Mutation → ℕ → ℕ → Exec S (Unit {0})
    call_release_port m guest host = do
      lift (validate m)
      received (
          service.release_port
            record { mutation = some (mutation_to m); guest_port = guest; host_port = host })

    -- Diagnostics
    unfoldable pub call_diagnostics : Owner → Exec S Diagnostics
    call_diagnostics o = do
      lift (validate_owner o)
      d ← received (service.diagnostics (owner_request o))
      pure record { owner_uid = d.owner_uid; messages = d.messages }

    -- AcquireProbe
    unfoldable pub call_acquire_probe : Mutation → String → Exec S ProbeLease
    call_acquire_probe m network = do
      lift (validate m)
      if network == "" then raise invalid_request else do
        v ←
            received
              (service.acquire_probe record { mutation = some (mutation_to m); name = network })
        pure (probe_lease_from v)

    -- ReleaseProbe
    unfoldable pub call_release_probe : Mutation → String → Exec S (Unit {0})
    call_release_probe m uid = do
      lift (validate m)
      if uid == ""
          then raise invalid_request
          else received
              (service.release_probe record { mutation = some (mutation_to m); name = uid })

    -- PrepareRootDisk
    unfoldable pub call_prepare_root_disk : Mutation → RootDiskRequest → Exec S ArtifactResult
    call_prepare_root_disk m r = do
      lift (validate m)
      v ← received (
          service.prepare_root_disk record {
            mutation = some (mutation_to m);
            name = r.name;
            source_image = r.source_image;
          })
      pure (artifact_from v)

    -- PrepareCIDATA
    unfoldable pub call_prepare_cidata :
        Mutation → String → List ArtifactFile → Exec S ArtifactResult
    call_prepare_cidata m name files = do
      lift (validate m)
      v ← received (
          service.prepare_cidata
            record { mutation = some (mutation_to m); name = name; files = files_to files })
      pure (artifact_from v)

    -- PrepareConfext
    unfoldable pub call_prepare_confext :
        Mutation → String → List ArtifactFile → Exec S ArtifactResult
    call_prepare_confext m name files = do
      lift (validate m)
      v ← received (
          service.prepare_confext
            record { mutation = some (mutation_to m); name = name; files = files_to files })
      pure (artifact_from v)

    -- The Client as a HostAgent.
    abbrev pub client : HostAgent S
    client = record {
      health = call_health;
      ensure_vm = call_ensure_vm;
      get_vm = call_get_vm;
      stop_vm = call_stop_vm;
      delete_vm = call_delete_vm;
      ensure_network = call_ensure_network;
      delete_network = call_delete_network;
      ensure_port = call_ensure_port;
      delete_port = call_delete_port;
      allocate_ip = call_allocate_ip;
      release_ip = call_release_ip;
      publish_port = call_publish_port;
      release_port = call_release_port;
      diagnostics = call_diagnostics;
      acquire_probe = call_acquire_probe;
      release_probe = call_release_probe;
      prepare_root_disk = call_prepare_root_disk;
      prepare_cidata = call_prepare_cidata;
      prepare_confext = call_prepare_confext;
    }
