-- ===== src/Executor/Journal.antt =====
-- `begin`, `complete` and `notImplemented` of internal/agent/executor/executor.go: the journal
-- entries around an operation.
use cluster_api_hypervisor.Common.{ℕ, String, Bool, List, if◌then◌else◌}
use cluster_api_hypervisor.Exec.{Result, ok, err, Exec, pure, raise, conflict, attempt, ◌>>=◌}
use cluster_api_hypervisor.HostAgent.{Mutation}
use cluster_api_hypervisor.Inventory.{OperationState, intent, Operation}
use cluster_api_hypervisor.Inventory.Journal.{begin_operation, complete_operation}
use cluster_api_hypervisor.Executor.{Executor, World, on_store, is_idempotency_conflict}

-- The operation that `begin` and `complete` build; the fields that they leave zero are not read.
abbrev pub operation_of : Mutation → String → String → Operation
operation_of m kind request_hash = record {
  installation_id = m.owner.installation_id;
  owner_uid = m.owner.uid;
  node_id = m.owner.node_id;
  key = m.idempotency_key;
  kind = kind;
  request_hash = request_hash;
  generation = m.generation;
  state = intent;
  result = "";
  failure = "";
  created_at = 0;
  updated_at = 0;
}

module _ {N H : Type 0} where
  unfoldable pub journal_error : Result (Operation × Bool) → Exec (World N H) Operation
  journal_error (ok begun) = pure begun.0
  journal_error (err e) = if is_idempotency_conflict e then raise conflict else raise e

  -- begin
  unfoldable pub begin : Executor N H → Mutation → String → List ℕ → Exec (World N H) Operation
  begin e m kind inputs = do
    begun ←
        attempt (on_store (begin_operation (operation_of m kind (e.operation_hash kind m inputs))))
    journal_error begun

  -- complete
  unfoldable pub complete :
      Mutation → String → String → OperationState → String → String → Exec (World N H) (Unit {0})
  complete m kind request_hash state result failure =
      on_store (complete_operation (operation_of m kind request_hash) state result failure)
