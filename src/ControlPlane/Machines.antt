-- ===== src/ControlPlane/Machines.antt =====
-- The Machines of a control plane in controllers/hypervisorcontrolplane_controller.go: the Secret of the
-- PKI, one Machine with its bootstrap config and its HypervisorMachine per replica, and the surplus.
use Prim.Native.String.{◌++◌ as append}
use cluster_api_hypervisor.Common.{
  ℕ, zero, suc, ◌+◌, ◌-◌, String, Bool, true, false, not, ◌&&◌, ◌||◌, Option, none, some, List, [],
  ◌∷◌, ◌==◌, eqb, length, if◌then◌else◌,
}
use cluster_api_hypervisor.Common.Int.{ℤ, pos, ltb_ℤ}
use cluster_api_hypervisor.Exec.{other, Exec, pure, raise, ◌>>=◌, ◌>>◌}
use cluster_api_hypervisor.HostAgent.{Mutation, protocol_major_version}
use cluster_api_hypervisor.Rpc.{HostAgent}
use cluster_api_hypervisor.ControlPlane.{
  Reference, Labels, Replacement, Plane, PlaneStatus, Cluster, HypervisorCluster, Machine, Config,
  HypervisorMachine, MachineTemplate, Secret,
}
use cluster_api_hypervisor.ControlPlane.Pki.{cluster_pki_secret_data}
use cluster_api_hypervisor.ControlPlane.Server.{
  World, Reconciler, on_outside, update_status, list_machines, get_machine, create_machine,
  delete_machine, create_config, get_hypervisor_cluster, get_hypervisor_machine,
  create_hypervisor_machine, get_template, get_secret, create_secret,
}
use cluster_api_hypervisor.ControlPlane.Versions.{
  Outcome, done, requeue, control_plane_machine_index,
}

-- Assignment to a key of a Go map, and maps.Copy.
unfoldable pub set_label : String → String → Labels → Labels
set_label key value [] = (key, value) ∷ []
set_label key value (entry ∷ labels) =
    let rest = set_label key value labels in
    if entry.0 == key then (key, value) ∷ labels else entry ∷ rest

unfoldable pub copy_labels : Labels → Labels → Labels
copy_labels [] into = into
copy_labels (entry ∷ labels) into = copy_labels labels (set_label entry.0 entry.1 into)

abbrev pub generation_of : ℕ → ℕ
generation_of generation = if eqb generation 0 then 1 else generation

module _ {S : Type 0} (e : Reconciler S) where
  -- hostMutation of controllers/hypervisorcluster_controller.go
  unfoldable pub host_mutation : String → String → ℕ → String → Mutation
  host_mutation installation uid generation operation = record {
    protocol_major = protocol_major_version;
    owner = record {
      installation_id = installation;
      node_id = "k8labs-mgmt-control-plane";
      uid = uid;
    };
    generation = generation_of generation;
    idempotency_key =
        append uid
          (append "-" (append operation (append "-" (e.print (generation_of generation)))));
    retain_disk = false;
  }

  unfoldable pub machine_name : Plane → ℕ → String
  machine_name plane i = append plane.name (append "-" (e.print i))

  -- linkedHypervisorCluster
  unfoldable pub linked_hypervisor_cluster : Cluster → Exec (World S) (Option HypervisorCluster)
  linked_hypervisor_cluster cluster =
      let ref = cluster.infrastructure_ref in
      if not ref.defined || not (ref.kind == "HypervisorCluster") || ref.name == ""
      then pure none
      else get_hypervisor_cluster ref.name

  -- The part of reserveControlPlaneIP that goes to an agent, or to k8netd.
  unfoldable pub reserve_from :
      Option (HostAgent S) → Plane → HypervisorCluster → String → Exec S String
  reserve_from none plane hc mac = e.allocate_ip hc.name mac
  reserve_from (some agent) plane hc mac = do
    agent.ensure_network (host_mutation "agent" hc.uid hc.generation "network")
        record { name = hc.name; cidr = hc.cidr }
    observed ←
        agent.ensure_port (host_mutation "agent" plane.uid plane.generation "reserve-control-plane")
          record { name = machine_name plane 0; network = hc.name; mac = mac }
    pure observed.ip

  unfoldable pub reserve_on : Plane → Cluster → Option HypervisorCluster → Exec (World S) String
  reserve_on plane cluster none = raise (other "HypervisorCluster not found")
  reserve_on plane cluster (some hc) =
      on_outside (reserve_from e.agent plane hc (e.derive cluster.name (machine_name plane 0)))

  -- reserveControlPlaneIP
  unfoldable pub reserve_control_plane_ip : Plane → Cluster → Exec (World S) String
  reserve_control_plane_ip plane cluster = do
    hc ← linked_hypervisor_cluster cluster
    reserve_on plane cluster hc

  unfoldable pub pki_secret_name : Cluster → String
  pki_secret_name cluster = append cluster.name "-pki"

  unfoldable pub generate_secret : Plane → Cluster → Option Secret → Exec (World S) (Unit {0})
  generate_secret plane cluster (some secret) = pure tt
  generate_secret plane cluster none = do
    ip ← reserve_control_plane_ip plane cluster
    pk ← on_outside (e.generate_pki ip)
    create_secret record {
      name = pki_secret_name cluster;
      labels = [];
      contents = cluster_pki_secret_data pk;
    }
    pure tt

  -- ensureClusterPKISecret
  unfoldable pub ensure_cluster_pki_secret : Plane → Cluster → Exec (World S) (Unit {0})
  ensure_cluster_pki_secret plane cluster = do
    secret ← get_secret (pki_secret_name cluster)
    generate_secret plane cluster secret

  -- machineFor
  unfoldable pub machine_for : Plane → Cluster → String → Config → Machine
  machine_for plane cluster name config = record {
    name = name;
    held = false;
    deleting = false;
    labels = copy_labels plane.spec.template_labels (
        ("cluster.x-k8s.io/cluster-name", cluster.name)
        ∷ ("cluster.x-k8s.io/control-plane", "")
        ∷ []);
    cluster_name = cluster.name;
    version = plane.spec.version;
    config_name = config.name;
    infrastructure_name = name;
  }

  -- The snapshot that a replacement Machine restores.
  unfoldable pub snapshot_for : Option Replacement → String → String → String → String
  snapshot_for none name version path = path
  snapshot_for (some rep) name version path =
      if rep.machine_name == name && rep.target_version == version then rep.snapshot_path else path

  unfoldable pub config_for : Plane → Cluster → String → Config
  config_for plane cluster name =
      let config = e.new_config plane name in
      record config {
        cluster_name = cluster.name;
        node_name = name;
        etcd_snapshot_host_path =
            snapshot_for plane.status.replacement name plane.spec.version
              config.etcd_snapshot_host_path;
      }

  -- `ref.Kind + "." + ref.APIGroup`
  unfoldable pub group_kind : Reference → String
  group_kind ref =
      if ref.api_group == "" then ref.kind else append ref.kind (append "." ref.api_group)

  unfoldable pub hypervisor_machine_for :
      Plane → Cluster → Machine → MachineTemplate → HypervisorMachine
  hypervisor_machine_for plane cluster m template = record {
    name = m.name;
    held = false;
    deleting = false;
    labels =
        set_label "cluster.x-k8s.io/cluster-name" cluster.name
          (copy_labels m.labels (copy_labels template.labels []));
    cloned_from_name = plane.spec.template_ref.name;
    cloned_from_group_kind = group_kind plane.spec.template_ref;
    spec = record template.spec { cluster_name = cluster.name };
    ready = false;
    addresses = [];
    published_ports = [];
  }

  unfoldable pub clone_template :
      Plane → Cluster → Machine → Option MachineTemplate → Exec (World S) (Unit {0})
  clone_template plane cluster m none = raise (other "get HypervisorMachineTemplate")
  clone_template plane cluster m (some template) = do
    create_hypervisor_machine (hypervisor_machine_for plane cluster m template)
    pure tt

  unfoldable pub instantiate :
      Plane → Cluster → Machine → Option HypervisorMachine → Exec (World S) (Unit {0})
  instantiate plane cluster m (some h) = pure tt
  instantiate plane cluster m none = do
    template ← get_template plane.spec.template_ref.name
    clone_template plane cluster m template

  -- ensureHypervisorMachine
  unfoldable pub ensure_hypervisor_machine : Plane → Cluster → Machine → Exec (World S) (Unit {0})
  ensure_hypervisor_machine plane cluster m = do
    h ← get_hypervisor_machine m.name
    instantiate plane cluster m h

  abbrev pub added_or_fail : Machine → Bool → Exec (World S) Machine
  added_or_fail m true = pure m
  added_or_fail m false = raise (other "create Machine")

  -- A new Machine with its bootstrap config.
  unfoldable pub make_machine : Plane → Cluster → String → Exec (World S) Machine
  make_machine plane cluster name = do
    ensure_cluster_pki_secret plane cluster
    create_config (config_for plane cluster name)
    added ← create_machine (machine_for plane cluster name (config_for plane cluster name))
    added_or_fail (machine_for plane cluster name (config_for plane cluster name)) added

  -- What is left of a replaced Machine's infrastructure is waited for.
  unfoldable pub unless_leftover :
      Plane → Cluster → String → Option HypervisorMachine → Exec (World S) (Option Machine)
  unless_leftover plane cluster name (some leftover) = pure none
  unless_leftover plane cluster name none = do m ← make_machine plane cluster name; pure (some m)

  -- The Machine of a replica, or none where the reconcile has to wait.
  unfoldable pub machine_of_replica :
      Plane → Cluster → String → Option Machine → Exec (World S) (Option Machine)
  machine_of_replica plane cluster name (some m) = pure (some m)
  machine_of_replica plane cluster name none = do
    leftover ← get_hypervisor_machine name
    unless_leftover plane cluster name leftover

  abbrev pub with_infrastructure : Plane → Cluster → Option Machine → Exec (World S) Outcome
  with_infrastructure plane cluster none = pure requeue
  with_infrastructure plane cluster (some m) = do
    ensure_hypervisor_machine plane cluster m
    pure done

  -- One round of the loop over the replicas.
  unfoldable pub ensure_replica : Plane → Cluster → String → Exec (World S) Outcome
  ensure_replica plane cluster name = do
    found ← get_machine name
    m ← machine_of_replica plane cluster name found
    with_infrastructure plane cluster m

  -- The rounds from replica `i` on, of which `left` are left; a round that waits ends the loop.
  unfoldable pub ensure_replicas : Plane → Cluster → ℕ → ℕ → Exec (World S) Outcome
  ensure_replicas plane cluster i zero = pure done
  ensure_replicas plane cluster i (suc left) = do
    outcome ← ensure_replica plane cluster (machine_name plane i)
    elim outcome [ requeue ↦ pure requeue | done ↦ ensure_replicas plane cluster (i + 1) left ]

  -- `!ok || index < replicas`
  unfoldable pub is_surplus : ℕ → Option ℤ → Bool
  is_surplus replicas none = false
  is_surplus replicas (some index) = not (ltb_ℤ index (pos replicas))

  -- The loop of scaleDownMachines.
  unfoldable pub delete_surplus : Plane → ℕ → List Machine → Exec (World S) (Unit {0})
  delete_surplus plane replicas [] = pure tt
  delete_surplus plane replicas (m ∷ ms) =
      (if is_surplus replicas (control_plane_machine_index e m.name plane.name)
        then delete_machine m.name
        else pure tt)
      >> delete_surplus plane replicas ms

  -- scaleDownMachines
  unfoldable pub scale_down_machines : Plane → Cluster → ℕ → Exec (World S) (Unit {0})
  scale_down_machines plane cluster replicas = do
    machines ← list_machines cluster.name
    delete_surplus plane replicas machines

  abbrev pub ready_count : Option HypervisorMachine → ℕ → ℕ
  ready_count none n = n
  ready_count (some h) n = if h.ready then suc n else n

  -- The loop of machineReplicaCounts.
  unfoldable pub count_ready : List Machine → Exec (World S) ℕ
  count_ready [] = pure 0
  count_ready (m ∷ ms) = do
    h ← get_hypervisor_machine m.name
    n ← count_ready ms
    pure (ready_count h n)

  -- machineReplicaCounts
  unfoldable pub machine_replica_counts : Cluster → Exec (World S) (ℕ × ℕ)
  machine_replica_counts cluster = do
    machines ← list_machines cluster.name
    ready ← count_ready machines
    pure (length machines, ready)

  unfoldable pub scale_status : Plane → ℕ → ℕ → PlaneStatus
  scale_status plane made ready = record plane.status {
    replicas = made;
    updated_replicas = made;
    ready_replicas = ready;
    unavailable_replicas = made - ready;
    version = some plane.spec.version;
  }

  -- updateScaleStatus; the control plane as it stands in memory afterwards
  unfoldable pub update_scale_status : Plane → Cluster → Exec (World S) Plane
  update_scale_status plane cluster = do
    counts ← machine_replica_counts cluster
    update_status (scale_status plane counts.0 counts.1)
    pure (record plane { status = scale_status plane counts.0 counts.1 })
