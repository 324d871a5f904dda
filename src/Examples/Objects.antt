-- ===== src/Examples/Objects.antt =====
-- Tests of the webhooks of internal/webhook for clusters, machines, control planes and
-- configurations.
use cluster_api_hypervisor.Common.{not, ◌≡◌, ◌↔◌, some, [], ◌∷◌, ◌==◌}
use cluster_api_hypervisor.Common.Int.{pos}
use cluster_api_hypervisor.Admission.{
  Parsers, ClusterObject, MachineObject, PlaneObject, ConfigObject, allowed, validate_cluster,
  validate_machine, validate_plane, validate_config, default_config,
}
use cluster_api_hypervisor.Admission.Laws.{IsUsable, validate_cluster-IsUsable}
use cluster_api_hypervisor.Admission.Objects.{IsFit, IsReferring, IsRoled, admission-IsExact}

-- Parsers that know a few texts.
abbrev parsers : Parsers
parsers = record {
  is_ipv4_prefix = λ x. x == "192.168.124.0/24";
  is_address = λ x. x == "192.168.124.1";
  is_semver = λ x. not (x == "");
  parse_mac = λ x. some x;
  has_prefix = λ x y. x == "c6:00:00:00:00:01";
}

abbrev cluster : ClusterObject
cluster = record {
  cidr = "192.168.124.0/24";
  bridge_name = "k8sbr0";
  nat_table = "k8slab";
  gateway = "192.168.124.1";
  images = record { version = "v1.38.0"; path = "/images/a" } ∷ [];
}

validate_cluster-IsUsable_example :
    (validate_cluster parsers cluster ≡ allowed) ↔ IsUsable parsers cluster
validate_cluster-IsUsable_example = validate_cluster-IsUsable parsers cluster

abbrev machine : MachineObject
machine = record { cpu = pos 2; ram = pos 2048; disk = pos 20; mac = "c6:00:00:00:00:01" }

abbrev plane : PlaneObject
plane = record { replicas = pos 3; ref_kind = "HypervisorMachineTemplate"; ref_name = "t" }

abbrev config : ConfigObject
config = record { role = "worker"; node_name = ""; cluster_name = "c1" }

admission-IsExact_example :
    ((validate_machine parsers machine ≡ allowed) ↔ IsFit parsers machine)
    × ((validate_plane plane ≡ allowed) ↔ IsReferring plane)
    × ((validate_config (default_config "w1" config) ≡ allowed) ↔ IsRoled "w1" config)
admission-IsExact_example = admission-IsExact parsers "w1" machine plane config
