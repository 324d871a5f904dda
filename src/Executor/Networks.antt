-- ===== src/Executor/Networks.antt =====
-- EnsureNetwork, Diagnostics and Health of internal/agent/executor/executor.go, and the probes that it does
-- not implement.
use cluster_api_hypervisor.Common.{
  ℕ, ◌+◌, ◌%◌, String, Bool, true, false, not, ◌||◌, [], ◌∷◌, ◌==◌, eqb, if◌then◌else◌,
}
use cluster_api_hypervisor.Exec.{
  Error, Result, ok, err, invalid_request, unavailable, not_found, Exec, pure, raise, lift, attempt,
  ◌>>=◌, ◌>>◌,
}
use cluster_api_hypervisor.HostAgent.{
  Owner, Mutation, validate_owner, validate, NetworkRequest, VmObserved, Diagnostics, ProbeLease,
  Capabilities, protocol_major_version,
}
use cluster_api_hypervisor.Executor.{
  Address, Prefix, Executor, World, on_network, on_machine, is_net_already_exists, tolerate,
}
use cluster_api_hypervisor.Executor.Vms.{get_vm_of}

-- The addresses that EnsureNetwork gives to a network; a byte wraps.
pub record Pool : Type 0 where
  pub gateway : Address
  pub start : Address
  pub end : Address

unfoldable pub plus : Address → ℕ → Address
plus base n = record base { d = (base.d + n) % 256 }

unfoldable pub pool_of : Address → Pool
pool_of base = record { gateway = plus base 1; start = plus base 2; end = plus base 254 }

unfoldable pub is_not_found : Error → Bool
is_not_found not_found = true
is_not_found _ = false

module _ {N H : Type 0} (e : Executor N H) where
  unfoldable pub create_pool : NetworkRequest → Pool → Exec (World N H) (Unit {0})
  create_pool req pool = do
    made ← attempt (
        on_network (
          e.network.create_network req.name req.cidr (e.format_address pool.gateway)
            (e.format_address pool.start) (e.format_address pool.end)))
    tolerate is_net_already_exists made

  unfoldable pub ensure_prefix : NetworkRequest → Result Prefix → Exec (World N H) (Unit {0})
  ensure_prefix req (err _) = raise invalid_request
  ensure_prefix req (ok prefix) =
      if not prefix.is_four || not (eqb prefix.bits 24)
      then raise invalid_request
      else create_pool req (pool_of prefix.masked)

  -- EnsureNetwork
  unfoldable pub ensure_network : Mutation → NetworkRequest → Exec (World N H) (Unit {0})
  ensure_network m req = do
    lift (validate m)
    if not e.has_network || req.name == ""
        then raise unavailable
        else ensure_prefix req (e.parse_prefix req.cidr)

  unfoldable pub diagnose : Owner → Result VmObserved → Exec (World N H) Diagnostics
  diagnose owner (ok vm) = pure record { owner_uid = owner.uid; messages = e.describe_vm vm ∷ [] }
  diagnose owner (err failure) =
      if is_not_found failure
      then pure record { owner_uid = owner.uid; messages = "vm not found" ∷ [] }
      else raise failure

  -- Diagnostics
  unfoldable pub diagnostics : Owner → Exec (World N H) Diagnostics
  diagnostics owner = do
    lift (validate_owner owner)
    vm ← attempt (get_vm_of e owner)
    diagnose owner vm

  -- Health
  unfoldable pub health : Exec (World N H) Capabilities
  health = if not e.has_store || not e.has_systemd || e.node_id == "" then raise unavailable else do
    kvm ← on_machine (e.host.socket_exists e.kvm_path)
    if not kvm then raise unavailable else do
      k8netd ← on_machine (e.host.socket_exists e.k8netd_socket)
      if not k8netd
          then raise unavailable
          else pure record {
            node_id = e.node_id;
            cloud_hypervisor = e.cloud_hypervisor;
            k8netd_protocol_major = protocol_major_version;
            can_use_kvm = true;
            can_use_user_dbus = true;
          }

  -- AcquireProbe and ReleaseProbe
  unfoldable pub acquire_probe : Mutation → String → Exec (World N H) ProbeLease
  acquire_probe m network = raise unavailable

  unfoldable pub release_probe : Mutation → String → Exec (World N H) (Unit {0})
  release_probe m uid = raise unavailable
