-- ===== src/Inventory/Journal.antt =====
-- internal/agent/inventory/journal.go: the durable journal of host operations.
use cluster_api_hypervisor.Common.{
  ℕ, String, Bool, true, false, not, ◌&&◌, ◌||◌, Option, none, some, List, [], ◌∷◌, ◌++◌, ◌==◌, eqb,
  if◌then◌else◌, find, exists_row, select, update, affected,
}
use cluster_api_hypervisor.Exec.{
  Result, ok, err, idempotency_conflict, operation_not_found, no_rows, Exec, pure, raise, ◌>>=◌,
  ◌>>◌,
}
use cluster_api_hypervisor.Inventory.{
  OperationState, intent, completed, failed, Operation, OperationGeneration, Tables, Store, Query,
  statement, no_rows_touched,
}

unfoldable pub same_state : OperationState → OperationState → Bool
same_state intent intent = true
same_state completed completed = true
same_state failed failed = true
same_state _ _ = false

unfoldable pub is_terminal : OperationState → Bool
is_terminal intent = false
is_terminal completed = true
is_terminal failed = true

-- WHERE installation_id=? AND owner_uid=? AND idempotency_key=?, the primary key
unfoldable pub has_key : String → String → String → Operation → Bool
has_key i u k op = op.installation_id == i && op.owner_uid == u && op.key == k

abbrev pub at_key_of : Operation → Operation → Bool
at_key_of op = has_key op.installation_id op.owner_uid op.key

-- validateOperation
unfoldable pub validate_operation : Operation → Bool
validate_operation op = not (
    op.installation_id == ""
    || op.owner_uid == ""
    || op.node_id == ""
    || op.key == ""
    || op.kind == ""
    || op.request_hash == ""
    || eqb op.generation 0)

abbrev pub intent_row : Operation → ℕ → Operation
intent_row op now = record op {
  state = intent;
  result = "";
  failure = "";
  created_at = now;
  updated_at = now;
}

-- begin_operation.sql: INSERT OR IGNORE
unfoldable pub insert_intent : Operation → ℕ → Query (Unit {0})
insert_intent op now t = (
  ok tt,
  (if exists_row (at_key_of op) t.journal
      then t
      else record t { journal = t.journal ++ intent_row op now ∷ [] }),
)

abbrev pub found_operation : Option Operation → Result Operation
found_operation none = err operation_not_found
found_operation (some op) = ok op

-- load_operation.sql and operationFromRow
unfoldable pub load_operation : Operation → Query Operation
load_operation op t = (found_operation (find (at_key_of op) t.journal), t)

-- The comparison of BeginOperation between the stored row and the request.
unfoldable pub same_request : Operation → Operation → Bool
same_request stored op =
    stored.node_id == op.node_id
    && stored.kind == op.kind
    && stored.request_hash == op.request_hash
    && eqb stored.generation op.generation

abbrev pub rollback {ℓ} : {A : Type ℓ} → Tables → Result A × Store → Result A × Store
rollback t (ok a, s) = (ok a, s)
rollback t (err e, s) = (err e, record s { tables = t })

-- BeginTx, the body, Commit; every error rolls the tables back (`defer tx.Rollback()`).
unfoldable pub transaction : {A : Type 0} → Exec Store A → Exec Store A
transaction body s =
    rollback s.tables
      ((statement no_rows_touched >> body >>= λ a. statement no_rows_touched >> pure a) s)

unfoldable pub begin_body : Operation → Exec Store (Operation × Bool)
begin_body op s =
    (do
      statement (insert_intent op s.now)
      stored ← statement (load_operation op)
      if same_request stored op
          then pure (stored, is_terminal stored.state)
          else raise idempotency_conflict)
      s

-- BeginOperation
unfoldable pub begin_operation : Operation → Exec Store (Operation × Bool)
unfolding transaction begin_body
begin_operation op =
    if validate_operation op then transaction (begin_body op) else raise idempotency_conflict

-- complete_operation.sql: the rows that are still an intent at the key
abbrev pub open_intent : Operation → Operation → Bool
open_intent op row = at_key_of op row && same_state row.state intent

abbrev pub with_outcome : OperationState → String → String → ℕ → Operation → Operation
with_outcome state result failure now row = record row {
  state = state;
  result = result;
  failure = failure;
  updated_at = now;
}

unfoldable pub record_outcome : Operation → OperationState → String → String → ℕ → Query ℕ
record_outcome op state result failure now t = (
  ok (affected (open_intent op) t.journal),
  record t { journal = update (open_intent op) (with_outcome state result failure now) t.journal },
)

unfoldable pub exactly_one : ℕ → Exec Store (Unit {0})
exactly_one rows = if eqb rows 1 then pure tt else raise idempotency_conflict

-- What CompleteOperation does with the row that BeginOperation returned.
unfoldable pub close_operation :
    Operation → OperationState → String → String → Operation → Exec Store (Unit {0})
unfolding exactly_one
close_operation op state result failure stored s =
    (if same_state stored.state intent
        then (do rows ← statement (record_outcome op state result failure s.now); exactly_one rows)
        else if same_state stored.state state
            && stored.result == result
            && stored.failure == failure
        then pure tt
        else raise idempotency_conflict)
      s

-- CompleteOperation
unfoldable pub complete_operation :
    Operation → OperationState → String → String → Exec Store (Unit {0})
unfolding close_operation
complete_operation op state result failure =
    if is_terminal state
    then (do begun ← begin_operation op; close_operation op state result failure begun.0)
    else raise idempotency_conflict

-- pending_operations.sql, before its ORDER BY
unfoldable pub pending_rows : Query (List Operation)
pending_rows t = (ok (select (λ row. same_state row.state intent) t.journal), t)

-- record_operation.sql and get_operation_generation.sql
unfoldable pub has_operation_key : String → String → String → OperationGeneration → Bool
has_operation_key i u k row = row.installation_id == i && row.owner_uid == u && row.key == k

insert_generation : String → String → String → ℕ → Query ℕ
insert_generation i u k g t =
    if exists_row (has_operation_key i u k) t.operations then (ok 0, t) else (
      ok 1,
      record t {
        operations =
            t.operations
            ++ record { installation_id = i; owner_uid = u; key = k; generation = g } ∷ [];
      },
    )

abbrev found_generation : Option OperationGeneration → Result ℕ
found_generation none = err no_rows
found_generation (some row) = ok row.generation

load_generation : String → String → String → Query ℕ
load_generation i u k t = (found_generation (find (has_operation_key i u k) t.operations), t)

-- RecordOperation
unfoldable pub record_operation : String → String → String → ℕ → Exec Store (Unit {0})
unfolding insert_generation load_generation
record_operation i u k g = do
  rows ← statement (insert_generation i u k g)
  if eqb rows 1 then pure tt else do
    existing ← statement (load_generation i u k)
    if eqb existing g then pure tt else raise idempotency_conflict
