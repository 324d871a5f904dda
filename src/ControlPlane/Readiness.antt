-- ===== src/ControlPlane/Readiness.antt =====
-- The readiness of the workload cluster in controllers/hypervisorcontrolplane_controller.go: the health of
-- its API server, the Secret of its kubeconfig, and the status.
use Prim.Native.String.{◌++◌ as append, compare}
use text.Mathlib.Text.{is_lt}
use cluster_api_hypervisor.Common.{
  ℕ, String, Bool, true, false, ◌&&◌, Option, none, some, List, [], ◌∷◌, ◌==◌, if◌then◌else◌,
}
use cluster_api_hypervisor.Exec.{Result, ok, err, other, Exec, pure, lift, attempt, ◌>>=◌, ◌>>◌}
use cluster_api_hypervisor.ControlPlane.{
  Labels, Plane, PlaneStatus, Cluster, Machine, HypervisorMachine, Secret,
}
use cluster_api_hypervisor.ControlPlane.Pki.{ClusterPki, lookup, decode_cluster_pki}
use cluster_api_hypervisor.ControlPlane.Server.{
  World, Reconciler, on_outside, update_status, list_machines, get_hypervisor_machine, get_secret,
  create_secret, update_secret,
}
use cluster_api_hypervisor.ControlPlane.Versions.{Outcome, done, requeue, published_host_port}
use cluster_api_hypervisor.ControlPlane.Machines.{set_label, pki_secret_name}

-- The least name, as sort.Slice and the first element give it.
unfoldable pub first_of : Machine → List Machine → Machine
first_of best [] = best
first_of best (m ∷ ms) = first_of (if is_lt (compare m.name best.name) then m else best) ms

unfoldable pub first_machine : List Machine → Option Machine
first_machine [] = none
first_machine (m ∷ ms) = some (first_of m ms)

-- internalIPAddress
unfoldable pub internal_ip_address : List (String × String) → String
internal_ip_address [] = ""
internal_ip_address (address ∷ addresses) =
    let rest = internal_ip_address addresses in
    if address.0 == "InternalIP" then address.1 else rest

abbrev pub cluster_name_label : String
cluster_name_label = "cluster.x-k8s.io/cluster-name"

-- A read of a Go map whose missing keys are empty; it is nil bytes for the data.
abbrev pub value_at : String → Labels → String
value_at key labels = elim (lookup key labels) [ none ↦ "" | some v ↦ v ]

-- The cluster-name label is added where it is missing.
unfoldable pub with_cluster_label : Cluster → Labels → Labels
with_cluster_label cluster labels = elim (lookup cluster_name_label labels) [
  | none ↦ set_label cluster_name_label cluster.name labels
  | some v ↦ labels
]

unfoldable pub kubeconfig_name : Cluster → String
kubeconfig_name cluster = append cluster.name "-kubeconfig"

unfoldable pub new_kubeconfig_secret : Cluster → String → Secret
new_kubeconfig_secret cluster document = record {
  name = kubeconfig_name cluster;
  labels = (cluster_name_label, cluster.name) ∷ [];
  contents = ("value", document) ∷ [];
}

unfoldable pub current_secret : Cluster → String → Secret → Secret
current_secret cluster document secret = record secret {
  labels = with_cluster_label cluster secret.labels;
  contents = set_label "value" document secret.contents;
}

-- bytes.Equal of the data and the label of the cluster
unfoldable pub is_current : Cluster → String → Secret → Bool
is_current cluster document secret =
    value_at "value" secret.contents == document
    && value_at cluster_name_label (with_cluster_label cluster secret.labels) == cluster.name

-- Initialized, ready, and the condition.
unfoldable pub ready_status : PlaneStatus → PlaneStatus
ready_status status = record status {
  initialized = true;
  initialization = some true;
  ready = true;
  is_condition_ready = true;
}

module _ {S : Type 0} (e : Reconciler S) where
  unfoldable pub server_url : ℕ → String
  server_url port =
      append "https://" (append "host.containers.internal" (append ":" (e.print port)))

  unfoldable pub put_kubeconfig : Cluster → String → Option Secret → Exec (World S) (Unit {0})
  put_kubeconfig cluster document none = do
    create_secret (new_kubeconfig_secret cluster document)
    pure tt
  put_kubeconfig cluster document (some secret) =
      if is_current cluster document secret
      then pure tt
      else update_secret (current_secret cluster document secret)

  -- ensureKubeconfigSecret
  unfoldable pub ensure_kubeconfig_secret :
      Cluster → String → ClusterPki → Exec (World S) (Unit {0})
  ensure_kubeconfig_secret cluster url pk = do
    document ← lift (e.render_kubeconfig pk url)
    secret ← get_secret (kubeconfig_name cluster)
    put_kubeconfig cluster document secret

  unfoldable pub decode_secret : Option Secret → Result ClusterPki
  decode_secret none = err (other "get cluster PKI Secret")
  decode_secret (some secret) = decode_cluster_pki secret.contents

  -- clusterPKI
  unfoldable pub cluster_pki : Cluster → Exec (World S) ClusterPki
  cluster_pki cluster = do
    secret ← get_secret (pki_secret_name e cluster)
    lift (decode_secret secret)

  -- The poll of the workload API server answers that it is healthy.
  unfoldable pub healthy_by :
      Option (String → ℕ → ClusterPki → Exec S (Unit {0})) → ℕ → ClusterPki → Exec (World S) Bool
  healthy_by none port pk = pure false
  healthy_by (some check) port pk = do
    answer ← attempt (on_outside (check "host.containers.internal" port pk))
    elim answer [ ok _ ↦ pure true | err _ ↦ pure false ]

  unfoldable pub seed_by :
      Option (String → String → ClusterPki → Exec S (Unit {0}))
      → String
      → String
      → ClusterPki
      → Exec (World S) (Unit {0})
  seed_by none url ip pk = pure tt
  seed_by (some seed) url ip pk = on_outside (seed url ip pk)

  unfoldable pub mark_ready : Plane → Exec (World S) (Unit {0})
  mark_ready plane =
      if plane.status.ready then pure tt else update_status (ready_status plane.status)

  -- What follows where the API server is healthy, or was before.
  unfoldable pub publish_access : Plane → Cluster → String → ℕ → ClusterPki → Exec (World S) Outcome
  publish_access plane cluster ip port pk = do
    ensure_kubeconfig_secret cluster (server_url port) pk
    seed_by e.seed_cluster_admin (server_url port) ip pk
    mark_ready plane
    pure done

  unfoldable pub when_healthy :
      Bool → Plane → Cluster → String → ℕ → ClusterPki → Exec (World S) Outcome
  when_healthy false plane cluster ip port pk = pure requeue
  when_healthy true plane cluster ip port pk = publish_access plane cluster ip port pk

  unfoldable pub access_at : Plane → Cluster → String → ℕ → Exec (World S) Outcome
  access_at plane cluster ip port = do
    pk ← cluster_pki cluster
    healthy ← if plane.status.ready then pure true else healthy_by e.check_api_server_health port pk
    when_healthy healthy plane cluster ip port pk

  unfoldable pub access_by : Plane → Cluster → String → Option ℕ → Exec (World S) Outcome
  access_by plane cluster ip none = pure requeue
  access_by plane cluster ip (some port) = access_at plane cluster ip port

  unfoldable pub access_from : Plane → Cluster → Option HypervisorMachine → Exec (World S) Outcome
  access_from plane cluster none = pure requeue
  access_from plane cluster (some h) =
      if internal_ip_address h.addresses == ""
      then pure requeue
      else access_by plane cluster (internal_ip_address h.addresses)
          (published_host_port h.published_ports 6443)

  unfoldable pub readiness_of : Plane → Cluster → Option Machine → Exec (World S) Outcome
  readiness_of plane cluster none = pure requeue
  readiness_of plane cluster (some m) = do
    h ← get_hypervisor_machine m.name
    access_from plane cluster h

  -- reconcileReadiness
  unfoldable pub reconcile_readiness : Plane → Cluster → Exec (World S) Outcome
  reconcile_readiness plane cluster = do
    machines ← list_machines cluster.name
    readiness_of plane cluster (first_machine machines)
