-- ===== src/ControlPlane/Server.antt =====
-- What controllers/hypervisorcontrolplane_controller.go reads and writes: the API server, the state
-- directory of the provider, and what lies outside (the host agent, k8netd, the workload cluster).
use cluster_api_hypervisor.Common.{
  ℕ, String, Bool, true, false, not, ◌&&◌, Option, none, some, List, [], ◌∷◌, ◌++◌, ◌==◌, find,
  exists_row, select, update, delete, if◌then◌else◌,
}
use cluster_api_hypervisor.Common.Int.{ℤ}
use cluster_api_hypervisor.Exec.{Result, ok, err, other, Exec}
use cluster_api_hypervisor.Rpc.{HostAgent}
use cluster_api_hypervisor.ControlPlane.{
  Labels, Plane, PlaneStatus, Cluster, HypervisorCluster, Machine, Config, HypervisorMachine,
  MachineTemplate, Secret,
}
use cluster_api_hypervisor.ControlPlane.Pki.{ClusterPki, lookup}

pub record Objects : Type 0 where
  pub plane : Option Plane
  pub clusters : List Cluster
  pub hypervisor_clusters : List HypervisorCluster
  pub machines : List Machine
  pub configs : List Config
  pub hypervisor_machines : List HypervisorMachine
  pub templates : List MachineTemplate
  pub secrets : List Secret

-- All state; a file is its path and its bytes. `faults` says which of the API calls to come fail for
-- another reason than that an object is missing or there already (past the end none fails).
pub record World (S : Type 0) : Type 0 where
  pub objects : Objects
  pub open objects use *
  pub faults : List Bool
  pub files : List (String × String)
  pub outside : S

-- What the reconciler is given. `derive` is mac.Derive, `print` writes a number in decimal, and
-- `parse_int32` is strconv.ParseInt in base 10 for 32 bits.
pub record Reconciler (S : Type 0) : Type 0 where
  pub new_config : Plane → String → Config
  pub generate_pki : String → Exec S ClusterPki
  pub agent : Option (HostAgent S)
  -- AllocateIP of K8Netd
  pub allocate_ip : String → String → Exec S String
  pub check_api_server_health : Option (String → ℕ → ClusterPki → Exec S (Unit {0}))
  pub seed_cluster_admin : Option (String → String → ClusterPki → Exec S (Unit {0}))
  pub capture_etcd_snapshot : Option (String → ℕ → Exec S String)
  pub state_dir : String
  -- os.MkdirAll and os.WriteFile of a path succeed
  pub can_write : String → Bool
  pub join : List String → String
  pub derive : String → String → String
  pub print : ℕ → String
  pub parse_int32 : String → Option ℤ
  -- pki.RenderKubeconfig for the user "admin", by the server URL
  pub render_kubeconfig : ClusterPki → String → Result String

abbrev pub Call : Type 0 → Type 0
Call A = Objects → A × Objects

-- Status().Update: the status alone is written.
abbrev pub write_status : PlaneStatus → Option Plane → Option Plane
write_status status none = none
write_status status (some p) = some (record p { status = status })

abbrev pub named : String → Machine → Bool
named name m = m.name == name

-- The cluster-name label of a cluster, and the control-plane role label
abbrev has_label : String → String → Labels → Bool
has_label key value labels = elim (lookup key labels) [ none ↦ false | some v ↦ v == value ]

unfoldable pub is_control_plane_of : String → Machine → Bool
is_control_plane_of cluster m =
    has_label "cluster.x-k8s.io/cluster-name" cluster m.labels
    && has_label "cluster.x-k8s.io/control-plane" "" m.labels

-- Delete removes an object, or marks it where it has finalizers; a missing object is tolerated by
-- every caller.
abbrev pub mark_machine : Machine → Machine
mark_machine m = record m { deleting = true }

abbrev mark_config : Config → Config
mark_config c = record c { deleting = true }

abbrev mark_hypervisor_machine : HypervisorMachine → HypervisorMachine
mark_hypervisor_machine h = record h { deleting = true }

abbrev pub add_secret : Secret → Call Bool
add_secret s o =
    if exists_row (λ t. t.name == s.name) o.secrets
    then (false, o)
    else (true, record o { secrets = o.secrets ++ s ∷ [] })

module _ {S : Type 0} where
  abbrev pub run_call : {A : Type 0} → List Bool → Call A → World S → Result A × World S
  run_call [] c w = let (a, o) = c w.objects in (ok a, record w { objects = o; faults = [] })
  run_call (true ∷ later) c w = (err (other "API call"), record w { faults = later })
  run_call (false ∷ later) c w =
      let (a, o) = c w.objects in (ok a, record w { objects = o; faults = later })

  -- One call; a call that fails changes nothing.
  unfoldable pub call : {A : Type 0} → Call A → Exec (World S) A
  call c w = run_call w.faults c w

  unfoldable pub on_outside : {A : Type 0} → Exec S A → Exec (World S) A
  on_outside m w = let (r, s) = m w.outside in (r, record w { outside = s })

  unfoldable pub get_plane : Exec (World S) (Option Plane)
  get_plane = call (λ o. (o.plane, o))

  unfoldable pub update_status : PlaneStatus → Exec (World S) (Unit {0})
  update_status status = call (λ o. (tt, record o { plane = write_status status o.plane }))

  unfoldable pub list_clusters : Exec (World S) (List Cluster)
  list_clusters = call (λ o. (o.clusters, o))

  unfoldable pub get_hypervisor_cluster : String → Exec (World S) (Option HypervisorCluster)
  get_hypervisor_cluster name = call (λ o. (find (λ c. c.name == name) o.hypervisor_clusters, o))

  unfoldable pub get_template : String → Exec (World S) (Option MachineTemplate)
  get_template name = call (λ o. (find (λ t. t.name == name) o.templates, o))

  unfoldable pub list_machines : String → Exec (World S) (List Machine)
  list_machines cluster = call (λ o. (select (is_control_plane_of cluster) o.machines, o))

  unfoldable pub get_machine : String → Exec (World S) (Option Machine)
  get_machine name = call (λ o. (find (named name) o.machines, o))

  -- Create adds an object unless one of its name is there; the callers that tolerate AlreadyExists do
  -- not look at the answer, which is whether it was added.
  unfoldable pub create_machine : Machine → Exec (World S) Bool
  create_machine m = call (λ o.
      if exists_row (named m.name) o.machines
      then (false, o)
      else (true, record o { machines = o.machines ++ m ∷ [] }))

  unfoldable pub delete_machine : String → Exec (World S) (Unit {0})
  delete_machine name = call (λ o. (
    tt,
    record o {
      machines =
          update (λ m. m.name == name) mark_machine
            (delete (λ m. m.name == name && not m.held) o.machines);
    },
  ))

  unfoldable pub get_config : String → Exec (World S) (Option Config)
  get_config name = call (λ o. (find (λ c. c.name == name) o.configs, o))

  unfoldable pub create_config : Config → Exec (World S) Bool
  create_config c = call (λ o.
      if exists_row (λ d. d.name == c.name) o.configs
      then (false, o)
      else (true, record o { configs = o.configs ++ c ∷ [] }))

  unfoldable pub delete_config : String → Exec (World S) (Unit {0})
  delete_config name = call (λ o. (
    tt,
    record o {
      configs =
          update (λ c. c.name == name) mark_config
            (delete (λ c. c.name == name && not c.held) o.configs);
    },
  ))

  unfoldable pub get_hypervisor_machine : String → Exec (World S) (Option HypervisorMachine)
  get_hypervisor_machine name = call (λ o. (find (λ h. h.name == name) o.hypervisor_machines, o))

  unfoldable pub create_hypervisor_machine : HypervisorMachine → Exec (World S) Bool
  create_hypervisor_machine h = call (λ o.
      if exists_row (λ g. g.name == h.name) o.hypervisor_machines
      then (false, o)
      else (true, record o { hypervisor_machines = o.hypervisor_machines ++ h ∷ [] }))

  unfoldable pub delete_hypervisor_machine : String → Exec (World S) (Unit {0})
  delete_hypervisor_machine name = call (λ o. (
    tt,
    record o {
      hypervisor_machines =
          update (λ h. h.name == name) mark_hypervisor_machine
            (delete (λ h. h.name == name && not h.held) o.hypervisor_machines);
    },
  ))

  unfoldable pub get_secret : String → Exec (World S) (Option Secret)
  get_secret name = call (λ o. (find (λ s. s.name == name) o.secrets, o))

  unfoldable pub create_secret : Secret → Exec (World S) Bool
  create_secret s = call (add_secret s)

  unfoldable pub update_secret : Secret → Exec (World S) (Unit {0})
  update_secret s =
      call (λ o. (tt, record o { secrets = update (λ t. t.name == s.name) (λ _. s) o.secrets }))

  -- A file is replaced, or added.
  unfoldable pub write_file : String → String → Exec (World S) (Unit {0})
  write_file path bytes w =
      (ok tt, record w { files = (path, bytes) ∷ delete (λ f. f.0 == path) w.files })
