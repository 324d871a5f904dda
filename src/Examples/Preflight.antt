-- ===== src/Examples/Preflight.antt =====
-- A test of the preflight of controllers/hypervisorupgradeplan_controller.go: the running version is
-- v1.30.0, and the first step of the plan is v1.29.0.
use cluster_api_hypervisor.Common.{
  ℕ, zero, suc, true, false, ◌≡◌, refl, inl, inr, some, get_elem?, exists_row, arith, eq_iff, [],
  ◌∷◌, find, ◌==◌, if◌then◌else◌, String,
}
use cluster_api_hypervisor.Upgrade.{unset, Plan, less, same, greater, Semver}
use cluster_api_hypervisor.Upgrade.Versions.{resolve_upgrade_steps}
use cluster_api_hypervisor.Upgrade.Api.{Reference, Cluster, HypervisorCluster, ControlPlane, Api}
use cluster_api_hypervisor.Upgrade.Calls.{Library, current_cluster_version}
use cluster_api_hypervisor.Upgrade.Preflight.{MayBegin, HasBegun, reconcile-HasBegun}

-- v1.29.0 < v1.30.0 < v1.31.0
abbrev order : Semver
order = record {
  is_valid = λ _. true;
  compare = λ a b.
      if a == b
      then same
      else if a == "v1.29.0"
      then less
      else if b == "v1.31.0"
      then less
      else greater;
}

abbrev library : Library
library = record {
  semver = order;
  set_status_condition = λ c cs. c ∷ cs;
  describe = λ reason plan. reason;
}

abbrev reference : String → Reference
reference kind = record { defined = true; kind = kind; name = "c1" }

abbrev cluster : Cluster
cluster = record {
  name = "c1";
  topology_version = "v1.30.0";
  class_name = "class";
  infrastructure_ref = reference "HypervisorCluster";
  control_plane_ref = reference "HypervisorControlPlane";
}

abbrev images : HypervisorCluster
images = record { name = "c1"; image_versions = "v1.29.0" ∷ "v1.30.0" ∷ "v1.31.0" ∷ [] }

abbrev control_plane : ControlPlane
control_plane = record {
  name = "c1";
  replicas = 1;
  version = "v1.30.0";
  ready = true;
  ready_replicas = 1;
}

abbrev downgrading : Plan
downgrading = record {
  name = "up";
  namespace = "default";
  deleting = false;
  has_finalizer = true;
  spec = record { cluster_name = "c1"; to_version = "v1.31.0"; steps = "v1.29.0" ∷ "v1.31.0" ∷ [] };
  status = record {
    phase = unset;
    from_version = "";
    current_step = 0;
    steps = [];
    failure_reason = "";
    failure_message = "";
    conditions = [];
  };
}

abbrev server : Api
server = record {
  objects = record {
    plan = some downgrading;
    clusters = cluster ∷ [];
    hypervisor_clusters = images ∷ [];
    control_planes = control_plane ∷ [];
    machines = [];
    deployments = [];
  };
  faults = [];
}

every_image :
    (i : ℕ) (v : String)
    → get_elem? (resolve_upgrade_steps downgrading.spec) i ≡ some v
    → exists_row (λ x. x == v) images.image_versions ≡ true
unfolding resolve_upgrade_steps exists_row
every_image zero v h = ground (arith, eq_iff "v1.29.0" v)
every_image (suc zero) v h = ground (arith, eq_iff "v1.31.0" v)
every_image (suc (suc i)) v h = absurd (cc)

may_begin : MayBegin library server.objects downgrading.spec
unfolding find current_cluster_version
may_begin = record {
  cluster = cluster;
  hypervisor_cluster = images;
  control_plane = control_plane;
  cluster_found = refl;
  infrastructure_found = refl;
  control_plane_found = refl;
  at_most_one = omega arith;
  ahead = inr (refl, refl, refl);
  has_image = every_image;
}

reconcile-HasBegun_example :
    HasBegun library downgrading server
      (current_cluster_version may_begin.cluster may_begin.control_plane)
reconcile-HasBegun_example =
    reconcile-HasBegun library downgrading server may_begin refl refl refl refl (inl refl)
