-- ===== src/Examples/Planes.antt =====
-- Tests of controllers/hypervisorcontrolplane_controller.go: a control plane whose only Machine has an older
-- version, with the snapshot of its replacement recorded.
use cluster_api_hypervisor.Common.{
  delete, ℕ, suc, String, true, false, ◌≡◌, ◌⊎◌, refl, none, some, [], ◌∷◌, ◌++◌, find, exists_row,
  select,
}
use cluster_api_hypervisor.Common.Int.{pos, ltb_ℤ}
use cluster_api_hypervisor.Exec.{ok, pure, raise, Exec, ◌>>=◌}
use cluster_api_hypervisor.ControlPlane.{
  Reference, Replacement, PlaneStatus, Plane, Cluster, Machine, HypervisorMachine,
}
use cluster_api_hypervisor.ControlPlane.Pki.{
  ClusterPki, cluster_pki_secret_data, lookup, missing_keys, decode_cluster_pki, decode-secret_data,
}
use cluster_api_hypervisor.ControlPlane.Server.{
  World, Reconciler, named, call, get_plane, list_clusters, write_file, on_outside,
  is_control_plane_of, list_machines, get_hypervisor_machine, get_secret, create_secret,
  update_status,
}
use cluster_api_hypervisor.ControlPlane.Versions.{
  done, control_plane_machine_index, published_host_port, reconcile_version_drift, find_drifted,
  consider, machine_drifted, drift_step, replace_machine, is_recorded, capture_replacement_snapshot,
  capture_by, capture_from, capture_at, record_snapshot, write_etcd_snapshot,
}
use cluster_api_hypervisor.ControlPlane.Machines.{
  is_surplus, pki_secret_name, count_ready, machine_replica_counts, scale_status,
  update_scale_status,
}
use cluster_api_hypervisor.ControlPlane.Readiness.{
  reconcile_readiness, readiness_of, access_from, access_by, access_at, cluster_pki, decode_secret,
  when_healthy, publish_access, ensure_kubeconfig_secret, put_kubeconfig, seed_by, mark_ready,
  first_machine, first_of, internal_ip_address, kubeconfig_name,
}
use cluster_api_hypervisor.ControlPlane.Access.{IsAccessible, reconcile_readiness-IsAccessible}
use cluster_api_hypervisor.ControlPlane.Counts.{Scales, update_scale_status-Scales}
use cluster_api_hypervisor.ControlPlane.Reconcile.{
  wanted, reconcile_control_plane, reconcile_plane, reconcile_linked, linked_cluster, is_linked,
  after_drift,
}
use cluster_api_hypervisor.ControlPlane.Steps.{IsFiled, replacement_of}
use cluster_api_hypervisor.ControlPlane.Safety.{IsSnapshotted, reconcile-IsFiled}
use cluster_api_hypervisor.ControlPlane.Runs.{stop, reconciled, run-IsSnapshotted}

abbrev reference : String → String → Reference
reference kind name = record { defined = true; api_group = ""; kind = kind; name = name }

abbrev snapshot : Replacement
snapshot = record {
  machine_name = "cp-0";
  target_version = "v1.31.0";
  snapshot_path = "/state/lab/snapshots/cp-0-v1.31.0.db";
}

abbrev status : PlaneStatus
status = record {
  ready = false;
  initialized = false;
  initialization = none;
  is_condition_ready = false;
  version = none;
  replicas = 0;
  updated_replicas = 0;
  ready_replicas = 0;
  unavailable_replicas = 0;
  replacement = some snapshot;
}

abbrev plane : Plane
plane = record {
  name = "cp";
  uid = "uid-cp";
  generation = 2;
  spec = record {
    replicas = pos 1;
    version = "v1.31.0";
    template_labels = [];
    template_ref = reference "HypervisorMachineTemplate" "cp";
  };
  status = status;
}

abbrev cluster : Cluster
cluster = record {
  name = "lab";
  control_plane_ref = reference "HypervisorControlPlane" "cp";
  infrastructure_ref = reference "HypervisorCluster" "lab";
}

abbrev old_machine : Machine
old_machine = record {
  name = "cp-0";
  held = false;
  deleting = false;
  labels = ("cluster.x-k8s.io/cluster-name", "lab") ∷ ("cluster.x-k8s.io/control-plane", "") ∷ [];
  cluster_name = "lab";
  version = "v1.30.0";
  config_name = "cp-0-config";
  infrastructure_name = "cp-0";
}

abbrev pki : ClusterPki
pki = record {
  ca = "a";
  ca_key = "b";
  front_proxy_ca = "c";
  front_proxy_ca_key = "d";
  api_server = "e";
  api_server_key = "f";
  front_proxy = "g";
  front_proxy_key = "h";
  service_account = "i";
  service_account_key = "j";
}

abbrev answered : {A : Type 0} → A → Exec ℕ A
answered a n = (ok a, suc n)

abbrev reconciler : Reconciler ℕ
reconciler = record {
  new_config = λ p name. record {
    name = name;
    held = false;
    deleting = false;
    role = "control-plane";
    cluster_name = "";
    node_name = "";
    etcd_snapshot_host_path = "";
  };
  generate_pki = λ _. answered pki;
  agent = none;
  allocate_ip = λ _ _. answered "10.0.0.2";
  check_api_server_health = none;
  seed_cluster_admin = none;
  capture_etcd_snapshot = none;
  state_dir = "/state";
  can_write = λ _. true;
  join = λ parts. "/state/lab/snapshots/cp-0-v1.31.0.db";
  derive = λ _ _. "c6:00:00:00:00:00";
  print = λ _. "0";
  parse_int32 = λ _. some (pos 0);
  render_kubeconfig = λ _ url. ok url;
}

abbrev lab : World ℕ
lab = record {
  objects = record {
    plane = some plane;
    clusters = cluster ∷ [];
    hypervisor_clusters = [];
    machines = old_machine ∷ [];
    configs = [];
    hypervisor_machines = [];
    templates = [];
    secrets = [];
  };
  faults = [];
  files = ("/state/lab/snapshots/cp-0-v1.31.0.db", "etcd") ∷ [];
  outside = 0;
}

on_disk : IsFiled (some snapshot) lab.files
unfolding exists_row
on_disk = refl

abbrev infrastructure : HypervisorMachine
infrastructure = record {
  name = "cp-0";
  held = false;
  deleting = false;
  labels = [];
  cloned_from_name = "cp";
  cloned_from_group_kind = "HypervisorMachineTemplate";
  spec = record {
    cluster_name = "lab";
    cpu = pos 2;
    ram = pos 2048;
    disk = pos 10240;
    mac = "";
    provider_id = none;
    retain_disk_on_delete = false;
  };
  ready = true;
  addresses = ("InternalIP", "10.0.0.2") ∷ [];
  published_ports = record { vm_port = 6443; host_port = 30643 } ∷ [];
}

-- A reconciler that captures snapshots, and a control plane that records no replacement yet.
abbrev capturing : Reconciler ℕ
capturing = record reconciler { capture_etcd_snapshot = some (λ _ _. answered "etcd") }

abbrev fresh : World ℕ
fresh = record lab {
  objects = record lab.objects {
    plane = some (record plane { status = record status { replacement = none } });
    hypervisor_machines =
        record infrastructure {
          published_ports = record { vm_port = 2379; host_port = 32379 } ∷ [];
        }
        ∷ [];
  };
  files = [];
}

abbrev captured : World ℕ
captured = (reconcile_control_plane capturing fresh).1

still_there : find (named "cp-0") captured.objects.machines ≡ some old_machine
unfolding reconcile_control_plane reconcile_plane reconcile_linked linked_cluster is_linked
    reconcile_version_drift find_drifted consider machine_drifted control_plane_machine_index wanted
    drift_step replace_machine is_recorded capture_replacement_snapshot capture_by capture_from
    capture_at record_snapshot write_etcd_snapshot write_file on_outside update_status
    get_hypervisor_machine published_host_port exists_row delete raise after_drift get_plane
    list_clusters list_machines is_control_plane_of lookup call pure ◌>>=◌ find select ltb_ℤ
still_there = refl

same_plane : captured.objects.plane ≡ some plane
unfolding reconcile_control_plane reconcile_plane reconcile_linked linked_cluster is_linked
    reconcile_version_drift find_drifted consider machine_drifted control_plane_machine_index wanted
    drift_step replace_machine is_recorded capture_replacement_snapshot capture_by capture_from
    capture_at record_snapshot write_etcd_snapshot write_file on_outside update_status
    get_hypervisor_machine published_host_port exists_row delete raise after_drift get_plane
    list_clusters list_machines is_control_plane_of lookup call pure ◌>>=◌ find select ltb_ℤ
same_plane = refl

own_replica :
    is_surplus capturing
      (wanted plane.spec.replicas)
      (control_plane_machine_index capturing "cp-0" plane.name)
    ≡ false
unfolding is_surplus wanted control_plane_machine_index ltb_ℤ
own_replica = refl

run-IsSnapshotted_example :
    (find (named "cp-0") (reconcile_control_plane capturing captured).1.objects.machines
      ≡ some old_machine)
    ⊎ IsSnapshotted capturing plane "cp-0" (reconcile_control_plane capturing captured).1
run-IsSnapshotted_example =
    run-IsSnapshotted capturing fresh captured plane "cp-0" old_machine refl (reconciled fresh stop)
      same_plane own_replica still_there

reconcile-IsFiled_example :
    IsFiled
      (replacement_of (reconcile_control_plane reconciler lab).1.objects.plane)
      (reconcile_control_plane reconciler lab).1.files
reconcile-IsFiled_example = reconcile-IsFiled reconciler plane lab refl on_disk

decode-secret_data_example : decode_cluster_pki (cluster_pki_secret_data pki ++ []) ≡ ok pki
decode-secret_data_example = decode-secret_data pki []

abbrev ready_plane : Plane
ready_plane = record plane { status = record status { ready = true; replacement = none } }

abbrev new_machine : Machine
new_machine = record old_machine { version = "v1.31.0" }

abbrev booted : World ℕ
booted = record lab {
  objects = record lab.objects {
    machines = new_machine ∷ [];
    hypervisor_machines = infrastructure ∷ [];
    secrets = record { name = "lab-pki"; labels = []; contents = cluster_pki_secret_data pki } ∷ [];
  };
}

reachable : (reconcile_readiness reconciler ready_plane cluster booted).0 ≡ ok done
unfolding reconcile_readiness readiness_of access_from access_by access_at cluster_pki decode_secret
    decode_cluster_pki missing_keys lookup when_healthy publish_access ensure_kubeconfig_secret
    put_kubeconfig seed_by mark_ready list_machines get_hypervisor_machine get_secret create_secret
    call ◌>>=◌ find select is_control_plane_of first_machine first_of internal_ip_address
    published_host_port exists_row pki_secret_name kubeconfig_name cluster_pki_secret_data
reachable = refl

reconcile_readiness-IsAccessible_example :
    IsAccessible reconciler cluster booted.objects
      (reconcile_readiness reconciler ready_plane cluster booted).1
reconcile_readiness-IsAccessible_example =
    reconcile_readiness-IsAccessible reconciler ready_plane cluster booted reachable

abbrev counted : Plane
counted = record ready_plane { status = scale_status reconciler ready_plane 1 1 }

scaled : (update_scale_status reconciler ready_plane cluster booted).0 ≡ ok counted
unfolding update_scale_status machine_replica_counts count_ready list_machines is_control_plane_of
    lookup get_hypervisor_machine update_status call ◌>>=◌ find select
scaled = refl

update_scale_status-Scales_example :
    Scales ready_plane cluster booted
      (update_scale_status reconciler ready_plane cluster booted).1
      counted
update_scale_status-Scales_example =
    update_scale_status-Scales reconciler ready_plane cluster booted counted scaled
