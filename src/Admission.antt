-- ===== src/Admission.antt =====
-- The admission of clusters, machines, control planes and configurations:
-- internal/webhook/hypervisorcluster_webhook.go, hypervisormachine_webhook.go,
-- hypervisorcontrolplane_webhook.go and hypervisorconfig_webhook.go. ValidateCreate and
-- ValidateUpdate both validate the new object; an object of another type is refused before, and is
-- not modelled.
pub mod Laws
pub mod Objects
use cluster_api_hypervisor.Common.{
  ℕ, zero, suc, ◌+◌, String, Bool, true, false, not, ◌&&◌, ◌||◌, List, [], ◌∷◌, ◌++◌, ◌==◌, Option,
  none, some, if◌then◌else◌, exists_row,
}
use cluster_api_hypervisor.Common.Int.{ℤ, pos, ltb_ℤ}

-- The entries of a field.ErrorList, by the field; an image is named by its index.
pub data SpecError : Type 0 where
  cidr gateway cpu ram disk mac mac_family replicas kind name role node_name cluster_name :
      SpecError
  version duplicate_version path : ℕ → SpecError

-- nil, or NewInvalid with the errors.
pub data Verdict : Type 0 where
  allowed : Verdict
  invalid : SpecError → List SpecError → Verdict

abbrev pub verdict : List SpecError → Verdict
verdict [] = allowed
verdict (e ∷ es) = invalid e es

-- `if bad { allErrs = append(allErrs, e) }`
abbrev pub report : Bool → SpecError → List SpecError
report bad e = if bad then e ∷ [] else []

-- Packages that the webhooks call: netip.ParsePrefix with an IPv4 address, netip.ParseAddr,
-- semver.IsValid, and net.ParseMAC with the text of the parsed address in lower case.
pub record Parsers : Type 0 where
  pub is_ipv4_prefix : String → Bool
  pub is_address : String → Bool
  pub is_semver : String → Bool
  pub parse_mac : String → Option String
  pub has_prefix : String → String → Bool

pub record VersionImage : Type 0 where
  pub version : String
  pub path : String

pub record ClusterObject : Type 0 where
  pub cidr : String
  pub bridge_name : String
  pub nat_table : String
  pub gateway : String
  pub images : List VersionImage

abbrev pub or_default : String → String → String
or_default value default = if value == "" then default else value

-- HypervisorClusterWebhook.Default
unfoldable pub default_cluster : ClusterObject → ClusterObject
default_cluster c = record {
  cidr = or_default c.cidr "192.168.124.0/24";
  bridge_name = or_default c.bridge_name "k8sbr0";
  nat_table = or_default c.nat_table "k8slab";
  gateway = c.gateway;
  images = c.images;
}

pub record MachineObject : Type 0 where
  pub cpu : ℤ
  pub ram : ℤ
  pub disk : ℤ
  pub mac : String

-- `value <= 0`
abbrev pub not_positive : ℤ → Bool
not_positive value = ltb_ℤ value (pos 1)

pub record PlaneObject : Type 0 where
  pub replicas : ℤ
  pub ref_kind : String
  pub ref_name : String

pub record ConfigObject : Type 0 where
  pub role : String
  pub node_name : String
  pub cluster_name : String

-- HypervisorConfigWebhook.Default, of an object of that name
unfoldable pub default_config : String → ConfigObject → ConfigObject
default_config object c = record {
  role = c.role;
  node_name = or_default c.node_name object;
  cluster_name = c.cluster_name;
}

module _ (p : Parsers) where
  -- The loop of validateClusterImages, at an index and after the images with some versions.
  unfoldable pub image_errors : ℕ → List String → List VersionImage → List SpecError
  image_errors i seen [] = []
  image_errors i seen (image ∷ images) =
      report (not (p.is_semver image.version)) (version i)
      ++ report (exists_row (λ v. v == image.version) seen) (duplicate_version i)
      ++ report (image.path == "") (path i)
      ++ image_errors (suc i) (image.version ∷ seen) images

  -- validateClusterImages
  unfoldable pub validate_cluster_images : List VersionImage → List SpecError
  validate_cluster_images images = image_errors 0 [] images

  -- validateHypervisorCluster
  unfoldable pub validate_cluster : ClusterObject → Verdict
  validate_cluster c = verdict (
      report (not (p.is_ipv4_prefix c.cidr)) cidr
      ++ report (not (c.gateway == "") && not (p.is_address c.gateway)) gateway
      ++ validate_cluster_images c.images)

  abbrev parsed_mac_errors : Option String → List SpecError
  parsed_mac_errors none = mac ∷ []
  parsed_mac_errors (some parsed) = report (not (p.has_prefix parsed "c6:")) mac_family

  unfoldable pub mac_errors : String → List SpecError
  mac_errors value = if value == "" then [] else parsed_mac_errors (p.parse_mac value)

  -- validateHypervisorMachine
  unfoldable pub validate_machine : MachineObject → Verdict
  validate_machine m = verdict (
      report (not_positive m.cpu) cpu
      ++ report (not_positive m.ram) ram
      ++ report (not_positive m.disk) disk
      ++ mac_errors m.mac)

-- validateHypervisorControlPlane
unfoldable pub validate_plane : PlaneObject → Verdict
validate_plane c = verdict (
    report (ltb_ℤ c.replicas (pos 1)) replicas
    ++ report (c.ref_kind == "") kind
    ++ report (c.ref_name == "") name)

-- validateHypervisorConfig
unfoldable pub validate_config : ConfigObject → Verdict
validate_config c = verdict (
    report (not (c.role == "control-plane") && not (c.role == "worker")) role
    ++ report (c.node_name == "") node_name
    ++ report (c.cluster_name == "") cluster_name)
