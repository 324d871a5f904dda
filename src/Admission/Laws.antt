-- ===== src/Admission/Laws.antt =====
-- What the webhooks of internal/webhook admit.
use cluster_api_hypervisor.Common.{
  ℕ, suc, String, true, false, ◌≡◌, ◌↔◌, refl, ◌⊎◌, List, [], ◌∷◌, ◌==◌, arith, exists_row,
}
use cluster_api_hypervisor.Admission.{
  VersionImage, ClusterObject, Parsers, image_errors, validate_cluster_images, validate_cluster,
  allowed, default_cluster,
}

module _ (p : Parsers) where
  -- Images whose versions are valid, not among some others and not repeated, with their paths.
  pub data AreUsable : List String → List VersionImage → Type 0 where
    no_image : {seen : List String} → AreUsable seen []
    image_then :
        {seen : List String} {image : VersionImage} {images : List VersionImage}
        → p.is_semver image.version ≡ true
        → exists_row (λ v. v == image.version) seen ≡ false
        → (image.path == "") ≡ false
        → AreUsable (image.version ∷ seen) images
        → AreUsable seen (image ∷ images)

  images-AreUsable :
      (i : ℕ) (seen : List String) (images : List VersionImage)
      → image_errors p i seen images ≡ []
      → AreUsable seen images
  unfolding image_errors
  images-AreUsable i seen [] h = no_image
  images-AreUsable i seen (image ∷ images) h =
      image_then (ground arith) (ground arith) (ground arith)
        (images-AreUsable (suc i) (image.version ∷ seen) images (ground arith))

  AreUsable-no_errors :
      (i : ℕ) (seen : List String) (images : List VersionImage)
      → AreUsable seen images
      → image_errors p i seen images ≡ []
  unfolding image_errors
  AreUsable-no_errors i seen [] h = refl
  AreUsable-no_errors i seen (image ∷ images) (image_then a b c rest) =
      ground (arith, AreUsable-no_errors (suc i) (image.version ∷ seen) images rest)

  -- What the webhook asks of a cluster.
  pub record IsUsable (c : ClusterObject) : Type 0 where
    pub network : p.is_ipv4_prefix c.cidr ≡ true
    pub gateway_or_none : ((c.gateway == "") ≡ true) ⊎ (p.is_address c.gateway ≡ true)
    pub images : AreUsable [] c.images

  admitted-IsUsable : (c : ClusterObject) → validate_cluster p c ≡ allowed → IsUsable c
  unfolding validate_cluster validate_cluster_images
  admitted-IsUsable c h = record {
    network = ground arith;
    gateway_or_none = ground arith;
    images = images-AreUsable 0 [] c.images (ground arith);
  }

  usable_admitted : (c : ClusterObject) → IsUsable c → validate_cluster p c ≡ allowed
  unfolding validate_cluster validate_cluster_images
  usable_admitted c h =
      ground (arith, h.network, h.gateway_or_none, AreUsable-no_errors 0 [] c.images h.images)

  -- A cluster is admitted exactly if its CIDR is an IPv4 prefix, its gateway an address or empty, and
  -- its images have valid versions, no two of them the same, and paths.
  pub validate_cluster-IsUsable :
      (c : ClusterObject) → (validate_cluster p c ≡ allowed) ↔ IsUsable c
  validate_cluster-IsUsable c = (admitted-IsUsable c, usable_admitted c)

-- Default changes nothing in a cluster that it has been applied to.
pub default_cluster_idem :
    (c : ClusterObject) → default_cluster (default_cluster c) ≡ default_cluster c
unfolding default_cluster
default_cluster_idem c = ground arith
