-- ===== src/Rpc/Remote.antt =====
-- The client over the server of internal/agentgrpc: what an operation that is called remotely does,
-- against the same operation of the agent.
use cluster_api_hypervisor.Common.{
  ℕ, String, Bool, ◌≡◌, ◌⊎◌, refl, ap, some, List, [], ◌∷◌, ◌==◌, eqb, arith, length, ◌||◌,
  if◌then◌else◌,
}
use cluster_api_hypervisor.Exec.{
  Error, invalid_request, protocol, Result, ok, err, Exec, lift, ◌>>=◌, ◌>>◌,
}
use cluster_api_hypervisor.HostAgent.{
  Owner, Mutation, protocol_major_version, validate_owner, validate, Capabilities, VmDesired,
  NetworkRequest, PortRequest, RootDiskRequest, ArtifactFile,
}
use cluster_api_hypervisor.Rpc.{HostAgent}
use cluster_api_hypervisor.Rpc.Convert.{
  validated, owner_to, mutation_to, mutation_from, owner_from, vm_desired_to, vm_desired_from,
  vm_observed_to, vm_observed_from, port_observed_to, port_observed_from, probe_lease_to,
  probe_lease_from, files_to, files_from, artifact_to, artifact_from, code_for, rpc_error,
  map_error, with_errors,
}
use cluster_api_hypervisor.Rpc.Server.{
  server, host, handled, handle_health, handle_stop_vm, handle_delete_vm, handle_delete_network,
  handle_delete_port, handle_allocate_ip, handle_ensure_vm, handle_ensure_network,
  handle_ensure_port, handle_publish_port, handle_release_port, handle_get_vm, handle_diagnostics,
  handle_release_ip, handle_acquire_probe, handle_release_probe, handle_prepare_root_disk,
  handle_prepare_cidata, handle_prepare_confext,
}
use cluster_api_hypervisor.Rpc.Client.{
  client, received, call_health, call_stop_vm, call_delete_vm, call_delete_network,
  call_delete_port, call_allocate_ip, call_ensure_vm, call_ensure_network, call_ensure_port,
  call_publish_port, call_release_port, call_get_vm, call_diagnostics, call_release_ip,
  call_acquire_probe, call_release_probe, call_prepare_root_disk, call_prepare_cidata,
  call_prepare_confext,
}

-- An error on its way through a status.
abbrev pub carried : Error → Error
carried e = map_error (rpc_error e)

-- What the server reads of a mutation that the client sent.
pub mutation_from-to :
    (m : Mutation) → mutation_from (some (mutation_to m)) ≡ validated (validate m) m
unfolding mutation_from mutation_to owner_to
mutation_from-to m = refl

pub owner_from-to :
    (o : Owner)
    → owner_from (some (owner_to o)) protocol_major_version ≡ validated (validate_owner o) o
unfolding owner_from owner_to
owner_from-to o = refl

pub files_from-to : (files : List ArtifactFile) → files_from (files_to files) ≡ files
unfolding files_from files_to
files_from-to [] = refl
files_from-to (f ∷ fs) = ap (λ x. f ∷ x) (files_from-to fs)

-- The verdicts of Validate.
pub validate-cases :
    (m : Mutation)
    → (validate m ≡ ok tt) ⊎ (validate m ≡ err invalid_request) ⊎ (validate m ≡ err protocol)
unfolding validate validate_owner
validate-cases m = ground arith

owner-cases : (o : Owner) → (validate_owner o ≡ ok tt) ⊎ (validate_owner o ≡ err invalid_request)
unfolding validate_owner
owner-cases o = ground arith

-- An operation on a request that is validated first, with its errors carried.
abbrev pub checked : {S A : Type 0} → Result (Unit {0}) → Exec S A → Exec S A
checked verdict m = lift verdict >> with_errors carried m

-- A request that passed, and is refused if it lacks something else.
abbrev pub demand : Result (Unit {0}) → Bool → Result (Unit {0})
demand (ok _) lacks = if lacks then err invalid_request else ok tt
demand (err e) lacks = err e

-- What a host agent `r` that is called remotely owes to the agent: each operation is that of the
-- agent, behind the validation of the request, with its errors carried.
pub record Carries {S : Type 0} (agent r : HostAgent S) : Type 0 where
  pub health : (s : S) → r.health s ≡ with_errors carried agent.health s
  pub stop_vm : (m : Mutation) (s : S) → r.stop_vm m s ≡ checked (validate m) (agent.stop_vm m) s
  pub delete_vm :
      (m : Mutation) (s : S) → r.delete_vm m s ≡ checked (validate m) (agent.delete_vm m) s
  pub delete_network :
      (m : Mutation) (s : S)
      → r.delete_network m s ≡ checked (validate m) (agent.delete_network m) s
  pub delete_port :
      (m : Mutation) (s : S) → r.delete_port m s ≡ checked (validate m) (agent.delete_port m) s
  pub allocate_ip :
      (m : Mutation) (s : S) → r.allocate_ip m s ≡ checked (validate m) (agent.allocate_ip m) s
  pub ensure_vm :
      (m : Mutation) (d : VmDesired) (s : S)
      → r.ensure_vm m d s ≡ checked (validate m) (agent.ensure_vm m d) s
  pub ensure_network :
      (m : Mutation) (n : NetworkRequest) (s : S)
      → r.ensure_network m n s ≡ checked (validate m) (agent.ensure_network m n) s
  pub ensure_port :
      (m : Mutation) (p : PortRequest) (s : S)
      → r.ensure_port m p s ≡ checked (validate m) (agent.ensure_port m p) s
  pub publish_port :
      (m : Mutation) (guest : ℕ) (host_port : ℕ) (s : S)
      → r.publish_port m guest host_port s
        ≡ checked (validate m) (agent.publish_port m guest host_port) s
  pub release_port :
      (m : Mutation) (guest : ℕ) (host_port : ℕ) (s : S)
      → r.release_port m guest host_port s
        ≡ checked (validate m) (agent.release_port m guest host_port) s
  pub get_vm : (o : Owner) (s : S) → r.get_vm o s ≡ checked (validate_owner o) (agent.get_vm o) s
  pub diagnostics :
      (o : Owner) (s : S) → r.diagnostics o s ≡ checked (validate_owner o) (agent.diagnostics o) s
  pub release_ip :
      (m : Mutation) (x : String) (s : S)
      → r.release_ip m x s ≡ checked (demand (validate m) (x == "")) (agent.release_ip m x) s
  pub acquire_probe :
      (m : Mutation) (x : String) (s : S)
      → r.acquire_probe m x s ≡ checked (demand (validate m) (x == "")) (agent.acquire_probe m x) s
  pub release_probe :
      (m : Mutation) (x : String) (s : S)
      → r.release_probe m x s ≡ checked (demand (validate m) (x == "")) (agent.release_probe m x) s
  pub prepare_root_disk :
      (m : Mutation) (req : RootDiskRequest) (s : S)
      → r.prepare_root_disk m req s
        ≡ checked
            (demand (validate m) (req.name == "" || req.source_image == ""))
            (agent.prepare_root_disk m req)
            s
  pub prepare_cidata :
      (m : Mutation) (x : String) (files : List ArtifactFile) (s : S)
      → r.prepare_cidata m x files s
        ≡ checked
            (demand (validate m) (x == "" || eqb (length files) 0))
            (agent.prepare_cidata m x files)
            s
  pub prepare_confext :
      (m : Mutation) (x : String) (files : List ArtifactFile) (s : S)
      → r.prepare_confext m x files s
        ≡ checked
            (demand (validate m) (x == "" || eqb (length files) 0))
            (agent.prepare_confext m x files)
            s

module _ {S : Type 0} (agent : HostAgent S) (configured : Capabilities) where
  -- The client over the server of an agent.
  abbrev pub remote : HostAgent S
  remote = client (server configured (some agent))

  health-carried : (s : S) → remote.health s ≡ with_errors carried agent.health s
  unfolding call_health handle_health received with_errors handled map_error rpc_error code_for
      ◌>>=◌
  health-carried s = ground arith

  stop_vm-carried :
      (m : Mutation) (s : S) → remote.stop_vm m s ≡ checked (validate m) (agent.stop_vm m) s
  unfolding call_stop_vm handle_stop_vm received with_errors handled host map_error rpc_error
      code_for ◌>>=◌
  stop_vm-carried m s = ground (arith, validate-cases m, mutation_from-to m)

  delete_vm-carried :
      (m : Mutation) (s : S) → remote.delete_vm m s ≡ checked (validate m) (agent.delete_vm m) s
  unfolding call_delete_vm handle_delete_vm received with_errors handled host map_error rpc_error
      code_for ◌>>=◌
  delete_vm-carried m s = ground (arith, validate-cases m, mutation_from-to m)

  delete_network-carried :
      (m : Mutation) (s : S)
      → remote.delete_network m s ≡ checked (validate m) (agent.delete_network m) s
  unfolding call_delete_network handle_delete_network received with_errors handled host map_error
      rpc_error code_for ◌>>=◌
  delete_network-carried m s = ground (arith, validate-cases m, mutation_from-to m)

  delete_port-carried :
      (m : Mutation) (s : S) → remote.delete_port m s ≡ checked (validate m) (agent.delete_port m) s
  unfolding call_delete_port handle_delete_port received with_errors handled host map_error
      rpc_error code_for ◌>>=◌
  delete_port-carried m s = ground (arith, validate-cases m, mutation_from-to m)

  allocate_ip-carried :
      (m : Mutation) (s : S) → remote.allocate_ip m s ≡ checked (validate m) (agent.allocate_ip m) s
  unfolding call_allocate_ip handle_allocate_ip received with_errors handled host map_error
      rpc_error code_for ◌>>=◌
  allocate_ip-carried m s = ground (arith, validate-cases m, mutation_from-to m)

  ensure_vm-carried :
      (m : Mutation) (d : VmDesired) (s : S)
      → remote.ensure_vm m d s ≡ checked (validate m) (agent.ensure_vm m d) s
  unfolding call_ensure_vm handle_ensure_vm received with_errors handled host map_error rpc_error
      code_for vm_desired_to vm_desired_from vm_observed_to vm_observed_from ◌>>=◌
  ensure_vm-carried m d s = ground (arith, validate-cases m, mutation_from-to m)

  ensure_network-carried :
      (m : Mutation) (n : NetworkRequest) (s : S)
      → remote.ensure_network m n s ≡ checked (validate m) (agent.ensure_network m n) s
  unfolding call_ensure_network handle_ensure_network received with_errors handled host map_error
      rpc_error code_for ◌>>=◌
  ensure_network-carried m n s = ground (arith, validate-cases m, mutation_from-to m)

  ensure_port-carried :
      (m : Mutation) (p : PortRequest) (s : S)
      → remote.ensure_port m p s ≡ checked (validate m) (agent.ensure_port m p) s
  unfolding call_ensure_port handle_ensure_port received with_errors handled host map_error
      rpc_error code_for port_observed_to port_observed_from ◌>>=◌
  ensure_port-carried m p s = ground (arith, validate-cases m, mutation_from-to m)

  publish_port-carried :
      (m : Mutation) (guest : ℕ) (host_port : ℕ) (s : S)
      → remote.publish_port m guest host_port s
        ≡ checked (validate m) (agent.publish_port m guest host_port) s
  unfolding call_publish_port handle_publish_port received with_errors handled host map_error
      rpc_error code_for ◌>>=◌
  publish_port-carried m guest host_port s = ground (arith, validate-cases m, mutation_from-to m)

  release_port-carried :
      (m : Mutation) (guest : ℕ) (host_port : ℕ) (s : S)
      → remote.release_port m guest host_port s
        ≡ checked (validate m) (agent.release_port m guest host_port) s
  unfolding call_release_port handle_release_port received with_errors handled host map_error
      rpc_error code_for ◌>>=◌
  release_port-carried m guest host_port s = ground (arith, validate-cases m, mutation_from-to m)

  get_vm-carried :
      (o : Owner) (s : S) → remote.get_vm o s ≡ checked (validate_owner o) (agent.get_vm o) s
  unfolding call_get_vm handle_get_vm received with_errors handled host map_error rpc_error code_for
      vm_observed_to vm_observed_from ◌>>=◌
  get_vm-carried o s = ground (arith, owner-cases o, owner_from-to o)

  diagnostics-carried :
      (o : Owner) (s : S)
      → remote.diagnostics o s ≡ checked (validate_owner o) (agent.diagnostics o) s
  unfolding call_diagnostics handle_diagnostics received with_errors handled host map_error
      rpc_error code_for ◌>>=◌
  diagnostics-carried o s = ground (arith, owner-cases o, owner_from-to o)

  release_ip-carried :
      (m : Mutation) (x : String) (s : S)
      → remote.release_ip m x s ≡ checked (demand (validate m) (x == "")) (agent.release_ip m x) s
  unfolding call_release_ip handle_release_ip received with_errors handled host map_error rpc_error
      code_for ◌>>=◌
  release_ip-carried m x s = ground (arith, validate-cases m, mutation_from-to m)

  acquire_probe-carried :
      (m : Mutation) (x : String) (s : S)
      → remote.acquire_probe m x s
        ≡ checked (demand (validate m) (x == "")) (agent.acquire_probe m x) s
  unfolding call_acquire_probe handle_acquire_probe received with_errors handled host map_error
      rpc_error code_for probe_lease_to probe_lease_from ◌>>=◌
  acquire_probe-carried m x s = ground (arith, validate-cases m, mutation_from-to m)

  release_probe-carried :
      (m : Mutation) (x : String) (s : S)
      → remote.release_probe m x s
        ≡ checked (demand (validate m) (x == "")) (agent.release_probe m x) s
  unfolding call_release_probe handle_release_probe received with_errors handled host map_error
      rpc_error code_for ◌>>=◌
  release_probe-carried m x s = ground (arith, validate-cases m, mutation_from-to m)

  prepare_root_disk-carried :
      (m : Mutation) (req : RootDiskRequest) (s : S)
      → remote.prepare_root_disk m req s
        ≡ checked
            (demand (validate m) (req.name == "" || req.source_image == ""))
            (agent.prepare_root_disk m req)
            s
  unfolding call_prepare_root_disk handle_prepare_root_disk received with_errors handled host
      map_error rpc_error code_for artifact_to artifact_from ◌>>=◌
  prepare_root_disk-carried m req s = ground (arith, validate-cases m, mutation_from-to m)

  prepare_cidata-carried :
      (m : Mutation) (x : String) (files : List ArtifactFile) (s : S)
      → remote.prepare_cidata m x files s
        ≡ checked
            (demand (validate m) (x == "" || eqb (length files) 0))
            (agent.prepare_cidata m x files)
            s
  unfolding call_prepare_cidata handle_prepare_cidata received with_errors handled host map_error
      rpc_error code_for artifact_to artifact_from ◌>>=◌
  prepare_cidata-carried m x files s =
      ground (arith, validate-cases m, mutation_from-to m, files_from-to files)

  prepare_confext-carried :
      (m : Mutation) (x : String) (files : List ArtifactFile) (s : S)
      → remote.prepare_confext m x files s
        ≡ checked
            (demand (validate m) (x == "" || eqb (length files) 0))
            (agent.prepare_confext m x files)
            s
  unfolding call_prepare_confext handle_prepare_confext received with_errors handled host map_error
      rpc_error code_for artifact_to artifact_from ◌>>=◌
  prepare_confext-carried m x files s =
      ground (arith, validate-cases m, mutation_from-to m, files_from-to files)

  -- An agent that is called through the client and the server does what it does itself: each request
  -- is validated first, and one that lacks what it must have is refused with no call; an error comes
  -- back as the sentinel of its status code; and a value comes back as it is.
  pub remote-Carries : Carries agent remote
  remote-Carries = record {
    health = health-carried;
    stop_vm = stop_vm-carried;
    delete_vm = delete_vm-carried;
    delete_network = delete_network-carried;
    delete_port = delete_port-carried;
    allocate_ip = allocate_ip-carried;
    ensure_vm = ensure_vm-carried;
    ensure_network = ensure_network-carried;
    ensure_port = ensure_port-carried;
    publish_port = publish_port-carried;
    release_port = release_port-carried;
    get_vm = get_vm-carried;
    diagnostics = diagnostics-carried;
    release_ip = release_ip-carried;
    acquire_probe = acquire_probe-carried;
    release_probe = release_probe-carried;
    prepare_root_disk = prepare_root_disk-carried;
    prepare_cidata = prepare_cidata-carried;
    prepare_confext = prepare_confext-carried;
  }
