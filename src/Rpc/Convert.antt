-- ===== src/Rpc/Convert.antt =====
-- The conversions of internal/agentgrpc/client.go (to) and server.go (from) between the agent's types
-- and the messages, and those of errors.
use cluster_api_hypervisor.Common.{ℕ, Option, none, some, List, [], ◌∷◌, not, eqb, if◌then◌else◌}
use cluster_api_hypervisor.Exec.{
  panic, Code, invalid_argument, failed_precondition, absent, aborted, out_of_service, internal,
  Error, invalid_request, conflict, not_found, unavailable, protocol, status_error, Result, ok, err,
  Exec,
}
use cluster_api_hypervisor.HostAgent.{
  Owner, Mutation, protocol_major_version, validate_owner, validate, VmDesired, VmObserved,
  PortObserved, ProbeLease, ArtifactFile, ArtifactResult,
}
use cluster_api_hypervisor.Rpc.Messages.{
  OwnerMessage, MutationMessage, VmDesiredMessage, VmObservedMessage, PortObservedMessage,
  ProbeLeaseMessage, FileMessage, ArtifactMessage,
}

-- ownerTo
unfoldable pub owner_to : Owner → OwnerMessage
owner_to o = record { installation_id = o.installation_id; node_id = o.node_id; uid = o.uid }

-- mutationTo
unfoldable pub mutation_to : Mutation → MutationMessage
mutation_to m = record {
  protocol_major = m.protocol_major;
  owner = some (owner_to m.owner);
  generation = m.generation;
  idempotency_key = m.idempotency_key;
  retain_disk = m.retain_disk;
}

-- The getters of a missing message return zero values.
abbrev empty_owner : Owner
empty_owner = record { installation_id = ""; node_id = ""; uid = "" }

abbrev pub owner_of : Option OwnerMessage → Owner
owner_of none = empty_owner
owner_of (some o) = record { installation_id = o.installation_id; node_id = o.node_id; uid = o.uid }

abbrev read_mutation : MutationMessage → OwnerMessage → Mutation
read_mutation value o = record {
  protocol_major = value.protocol_major;
  owner = owner_of (some o);
  generation = value.generation;
  idempotency_key = value.idempotency_key;
  retain_disk = value.retain_disk;
}

-- `return value, value.Validate()`
abbrev pub validated : {A : Type 0} → Result (Unit {0}) → A → Result A
validated (ok _) a = ok a
validated (err e) a = err e

abbrev with_owner : MutationMessage → Option OwnerMessage → Result Mutation
with_owner value none = err invalid_request
with_owner value (some o) = validated (validate (read_mutation value o)) (read_mutation value o)

-- mutationFrom
unfoldable pub mutation_from : Option MutationMessage → Result Mutation
mutation_from none = err invalid_request
mutation_from (some value) = with_owner value value.owner

-- ownerFrom
unfoldable pub owner_from : Option OwnerMessage → ℕ → Result Owner
owner_from value major =
    if not (eqb major protocol_major_version)
    then err protocol
    else validated (validate_owner (owner_of value)) (owner_of value)

-- vmDesiredTo and vmDesiredFrom
unfoldable pub vm_desired_to : VmDesired → VmDesiredMessage
vm_desired_to v = record {
  uid = v.uid;
  name = v.name;
  image = v.image;
  firmware = v.firmware;
  firmware_sha256 = v.firmware_sha256;
  api_socket = v.api_socket;
  vhost_socket = v.vhost_socket;
  disk = v.disk;
  mac = v.mac;
  ip = v.ip;
  cpus = v.cpus;
  memory_mib = v.memory_mib;
  additional_disks = v.additional_disks;
  disk_sha256 = v.disk_sha256;
  additional_disk_sha256 = v.additional_disk_sha256s;
}

unfoldable pub vm_desired_from : VmDesiredMessage → VmDesired
vm_desired_from v = record {
  uid = v.uid;
  name = v.name;
  image = v.image;
  firmware = v.firmware;
  firmware_sha256 = v.firmware_sha256;
  api_socket = v.api_socket;
  vhost_socket = v.vhost_socket;
  disk = v.disk;
  mac = v.mac;
  ip = v.ip;
  cpus = v.cpus;
  memory_mib = v.memory_mib;
  additional_disks = v.additional_disks;
  disk_sha256 = v.disk_sha256;
  additional_disk_sha256s = v.additional_disk_sha256;
}

-- vmObservedTo and vmObservedFrom
unfoldable pub vm_observed_to : VmObserved → VmObservedMessage
vm_observed_to v = record {
  uid = v.uid;
  unit = v.unit;
  pid = v.pid;
  guest_uptime = v.guest_uptime;
  running = v.running;
  api_socket = v.api_socket;
  vhost_socket = v.vhost_socket;
  ip = v.ip;
  mac = v.mac;
  generation = v.generation;
}

unfoldable pub vm_observed_from : VmObservedMessage → VmObserved
vm_observed_from v = record {
  uid = v.uid;
  unit = v.unit;
  pid = v.pid;
  guest_uptime = v.guest_uptime;
  running = v.running;
  api_socket = v.api_socket;
  vhost_socket = v.vhost_socket;
  ip = v.ip;
  mac = v.mac;
  generation = v.generation;
}

-- portObservedTo and portObservedFrom
unfoldable pub port_observed_to : PortObserved → PortObservedMessage
port_observed_to v = record {
  name = v.name;
  network = v.network;
  mac = v.mac;
  ip = v.ip;
  published = v.published;
}

unfoldable pub port_observed_from : PortObservedMessage → PortObserved
port_observed_from v = record {
  name = v.name;
  network = v.network;
  mac = v.mac;
  ip = v.ip;
  published = v.published;
}

-- probeLeaseTo and probeLeaseFrom
unfoldable pub probe_lease_to : ProbeLease → ProbeLeaseMessage
probe_lease_to v = record {
  uid = v.uid;
  network = v.network;
  port = v.port;
  mac = v.mac;
  ip = v.ip;
  expires_at = v.expires_at;
}

unfoldable pub probe_lease_from : ProbeLeaseMessage → ProbeLease
probe_lease_from v = record {
  uid = v.uid;
  network = v.network;
  port = v.port;
  mac = v.mac;
  ip = v.ip;
  expires_at = v.expires_at;
}

-- artifactFilesTo and artifactFiles
unfoldable pub files_to : List ArtifactFile → List FileMessage
files_to [] = []
files_to (f ∷ fs) = record { name = f.name; content = f.content } ∷ files_to fs

unfoldable pub files_from : List FileMessage → List ArtifactFile
files_from [] = []
files_from (f ∷ fs) = record { name = f.name; content = f.content } ∷ files_from fs

-- The ArtifactResponse of the server, and artifactResult
unfoldable pub artifact_to : ArtifactResult → ArtifactMessage
artifact_to r = record { paths = r.paths; sha256 = r.sha256s }

unfoldable pub artifact_from : ArtifactMessage → ArtifactResult
artifact_from r = record { paths = r.paths; sha256s = r.sha256 }

-- codeFor
unfoldable pub code_for : Error → Code
code_for invalid_request = invalid_argument
code_for protocol = failed_precondition
code_for not_found = absent
code_for conflict = aborted
code_for unavailable = out_of_service
code_for _ = internal

-- rpcError; where the agent panics its process ends, and there is no status.
unfoldable pub rpc_error : Error → Error
rpc_error panic = panic
rpc_error e = status_error (code_for e)

abbrev error_of_code : Code → Error
error_of_code invalid_argument = invalid_request
error_of_code failed_precondition = protocol
error_of_code absent = not_found
error_of_code aborted = conflict
error_of_code out_of_service = unavailable
error_of_code internal = status_error internal

-- mapError; an error of a context that ended has no status, and comes back as it is.
unfoldable pub map_error : Error → Error
map_error (status_error code) = error_of_code code
map_error e = e

abbrev pub map_err : {A : Type 0} → (Error → Error) → Result A → Result A
map_err f (ok a) = ok a
map_err f (err e) = err (f e)

-- An action whose errors are turned into others.
unfoldable pub with_errors : {S A : Type 0} → (Error → Error) → Exec S A → Exec S A
with_errors f m s = let (r, s') = m s in (map_err f r, s')
