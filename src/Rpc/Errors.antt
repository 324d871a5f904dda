-- ===== src/Rpc/Errors.antt =====
-- The errors of a host agent on their way through codeFor of internal/agentgrpc/server.go and mapError
-- of internal/agentgrpc/client.go.
use cluster_api_hypervisor.Common.{Bool, true, false, ◌≡◌, ◌⊎◌, arith}
use cluster_api_hypervisor.Exec.{
  Error, panic, invalid_request, conflict, not_found, unavailable, protocol, internal, status_error,
}
use cluster_api_hypervisor.Rpc.Convert.{code_for, rpc_error, map_error}
use cluster_api_hypervisor.Rpc.Remote.{carried}

-- The sentinels of internal/hostagent that have a status code of their own.
abbrev pub has_code : Error → Bool
has_code invalid_request = true
has_code conflict = true
has_code not_found = true
has_code unavailable = true
has_code protocol = true
has_code _ = false

-- A sentinel with a status code comes back as itself. Of any other error, ErrUnauthorized and an
-- end of the context among them, the caller only learns that it was internal; a panic ends the agent.
pub carried-cases :
    (e : Error)
    → ((has_code e ≡ true) × (carried e ≡ e))
      ⊎ ((has_code e ≡ false) × (carried e ≡ status_error internal))
      ⊎ ((e ≡ panic) × (carried e ≡ panic))
unfolding rpc_error map_error code_for
carried-cases e = ground arith
