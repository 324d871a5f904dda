-- ===== src/Admission/Objects.antt =====
-- What the webhooks of machines, control planes and configurations in internal/webhook admit.
use cluster_api_hypervisor.Common.{
  ℕ, zero, suc, String, true, false, ◌≡◌, ◌↔◌, refl, ◌⊎◌, inl, inr, some, [], ◌==◌, arith, eq_iff,
  Option-cases,
}
use cluster_api_hypervisor.Common.Int.{ℤ, pos, negsuc, ltb_ℤ}
use cluster_api_hypervisor.Admission.{
  Parsers, allowed, MachineObject, PlaneObject, ConfigObject, not_positive, mac_errors,
  validate_machine, validate_plane, validate_config, default_config,
}

-- A number that is at least one.
abbrev pub IsPositive : ℤ → Type 0
IsPositive z = (n : ℕ) × (z ≡ pos (suc n))

positive : (z : ℤ) → not_positive z ≡ false → IsPositive z
unfolding ltb_ℤ
positive (pos zero) h = absurd (cc)
positive (pos (suc n)) h = (n, refl)
positive (negsuc n) h = absurd (cc)

positive_back : (z : ℤ) → IsPositive z → not_positive z ≡ false
unfolding ltb_ℤ
positive_back z (n, h) = ground arith

module _ (p : Parsers) where
  -- A MAC address that is left out, or that is one of the family c6.
  abbrev pub IsOfFamily : String → Type 0
  IsOfFamily value =
      ((value == "") ≡ true)
      ⊎ ((parsed : String) × (p.parse_mac value ≡ some parsed) × (p.has_prefix parsed "c6:" ≡ true))

  family : (value : String) → mac_errors p value ≡ [] → IsOfFamily value
  unfolding mac_errors
  family value h = elim (Option-cases (p.parse_mac value)) [
    | inl e ↦ inl (ground arith)
    | inr (parsed, e) ↦ ground arith
  ]

  -- What the webhook asks of a machine.
  pub record IsFit (m : MachineObject) : Type 0 where
    pub processors : IsPositive m.cpu
    pub memory : IsPositive m.ram
    pub storage : IsPositive m.disk
    pub address : IsOfFamily m.mac

  admitted-IsFit : (m : MachineObject) → validate_machine p m ≡ allowed → IsFit m
  unfolding validate_machine
  admitted-IsFit m h = record {
    processors = positive m.cpu (ground arith);
    memory = positive m.ram (ground arith);
    storage = positive m.disk (ground arith);
    address = family m.mac (ground arith);
  }

  fit_admitted : (m : MachineObject) → IsFit m → validate_machine p m ≡ allowed
  unfolding validate_machine mac_errors
  fit_admitted m h = ground (
    arith,
    positive_back m.cpu h.processors,
    positive_back m.ram h.memory,
    positive_back m.disk h.storage,
    h.address,
  )

-- What the webhook asks of a control plane.
pub record IsReferring (c : PlaneObject) : Type 0 where
  pub replicated : IsPositive c.replicas
  pub of_kind : (c.ref_kind == "") ≡ false
  pub of_name : (c.ref_name == "") ≡ false

admitted-IsReferring : (c : PlaneObject) → validate_plane c ≡ allowed → IsReferring c
unfolding validate_plane
admitted-IsReferring c h = record {
  replicated = positive c.replicas (ground arith);
  of_kind = ground arith;
  of_name = ground arith;
}

referring_admitted : (c : PlaneObject) → IsReferring c → validate_plane c ≡ allowed
unfolding validate_plane
referring_admitted c h = ground (arith, positive_back c.replicas h.replicated, h.of_kind, h.of_name)

-- What a configuration needs before its node name is set, in an object of a name.
pub record IsRoled (object : String) (c : ConfigObject) : Type 0 where
  pub known : (c.role ≡ "control-plane") ⊎ (c.role ≡ "worker")
  pub named : ((object == "") ≡ false) ⊎ ((c.node_name == "") ≡ false)
  pub of_cluster : (c.cluster_name == "") ≡ false

admitted-IsRoled :
    (object : String) (c : ConfigObject)
    → validate_config (default_config object c) ≡ allowed
    → IsRoled object c
unfolding validate_config default_config
admitted-IsRoled object c h = record {
  known = ground (arith, eq_iff c.role "control-plane", eq_iff c.role "worker");
  named = ground arith;
  of_cluster = ground arith;
}

roled_admitted :
    (object : String) (c : ConfigObject)
    → IsRoled object c
    → validate_config (default_config object c) ≡ allowed
unfolding validate_config default_config
roled_admitted object c h =
    ground
      (arith, eq_iff c.role "control-plane", eq_iff c.role "worker", h.known, h.named, h.of_cluster)

-- What the three webhooks admit. A machine is admitted exactly if its CPU, RAM and disk are positive
-- and its MAC is empty or of the family c6; a control plane exactly if it has a replica and a
-- reference with kind and name; a configuration, after Default, exactly if its role is known, it or
-- its object has a name, and it names a cluster.
pub admission-IsExact :
    (p : Parsers) (object : String) (m : MachineObject) (plane : PlaneObject) (c : ConfigObject)
    → ((validate_machine p m ≡ allowed) ↔ IsFit p m)
      × ((validate_plane plane ≡ allowed) ↔ IsReferring plane)
      × ((validate_config (default_config object c) ≡ allowed) ↔ IsRoled object c)
admission-IsExact p object m plane c = (
  (admitted-IsFit p m, fit_admitted p m),
  (admitted-IsReferring plane, referring_admitted plane),
  (admitted-IsRoled object c, roled_admitted object c),
)
