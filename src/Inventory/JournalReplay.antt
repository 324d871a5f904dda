-- ===== src/Inventory/JournalReplay.antt =====
-- BeginOperation and CompleteOperation at a key, when SQLite fails no statement: what is returned
-- and what is written, by the row that the key has.
use cluster_api_hypervisor.Common.{
  String, true, ◌≡◌, some, [], arith, find, exists_row_of_find, ◌==◌, if◌then◌else◌, ◌&&◌,
}
use cluster_api_hypervisor.Exec.{ok, err, idempotency_conflict, ◌>>=◌}
use cluster_api_hypervisor.Inventory.{Operation, OperationState, Store, statement}
use cluster_api_hypervisor.Inventory.Journal.{
  is_terminal, same_state, at_key_of, insert_intent, load_operation, same_request,
  validate_operation, begin_operation, complete_operation,
}

module _ (op : Operation) (s : Store) (calm : s.faults ≡ [])
    (valid : validate_operation op ≡ true) where
  -- BeginOperation of a valid operation whose key is taken, when SQLite fails no statement: the stored
  -- row comes back, with whether it has an outcome, if it is of the same request, and else a conflict;
  -- nothing is written.
  pub begin_operation-taken :
      (row : Operation)
      → find (at_key_of op) s.journal ≡ some row
      → begin_operation op s ≡ (
          if same_request row op
          then (ok (row, is_terminal row.state), s)
          else (err idempotency_conflict, s))
  unfolding begin_operation statement ◌>>=◌ insert_intent load_operation
  begin_operation-taken row found = ground (arith, exists_row_of_find (at_key_of op) s.journal row)

  -- CompleteOperation of a valid operation with a terminal state, on a row that has an outcome, when
  -- SQLite fails no statement: the same outcome of the same request is accepted, any other is a
  -- conflict, and nothing is written.
  pub complete_operation-settled :
      (row : Operation) (state : OperationState) (result failure : String)
      → find (at_key_of op) s.journal ≡ some row
      → is_terminal row.state ≡ true
      → is_terminal state ≡ true
      → complete_operation op state result failure s ≡ (
        (if same_request row op
              && (same_state row.state state && row.result == result && row.failure == failure)
            then ok tt
            else err idempotency_conflict),
        s,
      )
  unfolding complete_operation ◌>>=◌ same_state is_terminal
  complete_operation-settled row state result failure found settled terminal =
      ground (arith, begin_operation-taken row found)
