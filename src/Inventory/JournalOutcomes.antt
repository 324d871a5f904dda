-- ===== src/Inventory/JournalOutcomes.antt =====
-- What CompleteOperation of internal/agent/inventory/journal.go leaves, whatever SQLite does.
use cluster_api_hypervisor.Common.{
  ◌≡◌, refl, true, String, some, [], ℕ, find, arith, eq_iff, eq_refl, find_sound, find-update, ◌&&◌,
  ◌==◌,
}
use cluster_api_hypervisor.Exec.{ok, raise, idempotency_conflict, ◌>>=◌}
use cluster_api_hypervisor.Exec.Triple.{
  Triple, Triple-pure, Triple-raise, Triple-if, Triple-bind, Triple-reading,
}
use cluster_api_hypervisor.Inventory.{Operation, OperationState, intent, Tables, Store, statement}
use cluster_api_hypervisor.Inventory.Steps.{Triple-statement}
use cluster_api_hypervisor.Inventory.Journal.{
  at_key_of, has_key, same_request, same_state, is_terminal, open_intent, with_outcome,
  record_outcome, exactly_one, close_operation, complete_operation, begin_operation,
  validate_operation,
}
use cluster_api_hypervisor.Inventory.JournalPosts.{IsStored, begin_operation-post}
use cluster_api_hypervisor.Inventory.JournalAnswers.{IsOf, IsOf-same}
use cluster_api_hypervisor.Inventory.JournalReplay.{complete_operation-settled}

-- The journal has an outcome of an operation at its key.
pub record IsRecorded (op : Operation) (state : OperationState) (result failure : String)
    (t : Tables) : Type 0 where
  pub row : Operation
  pub stored : find (at_key_of op) t.journal ≡ some row
  pub of_request : IsOf op row
  pub same_state : row.state ≡ state
  pub same_result : row.result ≡ result
  pub same_failure : row.failure ≡ failure

module _ (op : Operation) (state : OperationState) (result failure : String) where
  abbrev Done : Tables → Type 0
  Done t = IsRecorded op state result failure t

  recorded :
      (now : ℕ) (row : Operation) (t : Tables)
      → same_state row.state intent ≡ true
      → IsStored op row t
      → Done (record_outcome op state result failure now t).1
  unfolding record_outcome has_key same_request
  recorded now row t fresh h = record {
    row = with_outcome state result failure now row;
    stored = ground (
      arith,
      h.0,
      find_sound (at_key_of op) t.journal row h.0,
      find-update (at_key_of op) (open_intent op) (with_outcome state result failure now) t.journal
          (λ r. refl),
    );
    of_request =
        IsOf-same op (with_outcome state result failure now row)
          (find_sound (at_key_of op) t.journal row h.0) h.1;
    same_state = refl;
    same_result = refl;
    same_failure = refl;
  }

  settled :
      (row : Operation) (t : Tables)
      → (same_state row.state state && row.result == result && row.failure == failure) ≡ true
      → IsStored op row t
      → Done t
  unfolding same_state
  settled row t h k = record {
    row = row;
    stored = k.0;
    of_request = IsOf-same op row (find_sound (at_key_of op) t.journal row k.0) k.1;
    same_state = ground arith;
    same_result = ground (arith, eq_iff row.result result);
    same_failure = ground (arith, eq_iff row.failure failure);
  }

  write-post :
      (now : ℕ) (row : Operation)
      → same_state row.state intent ≡ true
      → Triple
          (λ s. IsStored op row s.tables)
          (do rows ← statement (record_outcome op state result failure now); exactly_one rows)
          (λ _ s. Done s.tables)
  unfolding exactly_one
  write-post now row fresh =
      Triple-bind (λ _ s. Done s.tables) _ _
        (Triple-statement (record_outcome op state result failure now) (λ t. IsStored op row t)
          (λ _ t. Done t) (λ t h _ _. recorded now row t fresh h))
        (λ n.
          Triple-if _ _ _ (λ _. Triple-pure tt (λ s h. h)) (λ _. Triple-raise idempotency_conflict))

  close-post :
      (row : Operation)
      → Triple
          (λ s. IsStored op row s.tables)
          (close_operation op state result failure row)
          (λ _ s. Done s.tables)
  unfolding close_operation
  close-post row = Triple-reading _ λ s.
      Triple-if _ _ _ (λ fresh. write-post s.now row fresh)
        (λ _.
          Triple-if _ _ _ (λ same. Triple-pure tt (λ v h. settled row v.tables same h))
            (λ _. Triple-raise idempotency_conflict))

  complete-post :
      Triple (λ s. Unit) (complete_operation op state result failure) (λ _ s. Done s.tables)
  unfolding complete_operation
  complete-post =
      Triple-if _ _ _
        (λ _. Triple-bind _ _ _ (begin_operation-post op) (λ begun. close-post begun.0))
        (λ _. Triple-raise idempotency_conflict)

  -- After a CompleteOperation without error the journal has, at the key of the operation, a row for
  -- the same node, kind, request hash and generation, with the state, the result and the failure
  -- that were asked for.
  pub complete_operation-IsRecorded :
      (s : Store)
      → (complete_operation op state result failure s).0 ≡ ok tt
      → IsRecorded op state result failure (complete_operation op state result failure s).1.tables
  complete_operation-IsRecorded s h = complete-post.at s tt tt h

  accepted_terminal :
      (s : Store)
      → (complete_operation op state result failure s).0 ≡ ok tt
      → (is_terminal state ≡ true) × (validate_operation op ≡ true)
  unfolding complete_operation begin_operation ◌>>=◌ raise
  accepted_terminal s h = (ground arith, ground arith)

  same_request_back : (row : Operation) → IsOf op row → same_request row op ≡ true
  unfolding same_request
  same_request_back row h = ground (
    arith,
    h.node,
    h.kind,
    h.hash,
    h.generation,
    eq_refl op.node_id,
    eq_refl op.kind,
    eq_refl op.request_hash,
  )

  again :
      (s : Store)
      → s.faults ≡ []
      → validate_operation op ≡ true
      → is_terminal state ≡ true
      → IsRecorded op state result failure s.tables
      → complete_operation op state result failure s ≡ (ok tt, s)
  unfolding same_state is_terminal
  again s calm valid terminal h = ground (
    arith,
    complete_operation-settled op s calm valid h.row state result failure h.stored,
    same_request_back h.row h.of_request,
    h.same_state,
    h.same_result,
    h.same_failure,
    eq_refl result,
    eq_refl failure,
  )

  -- A CompleteOperation that was accepted is accepted again with the same arguments, and writes
  -- nothing more, where no further statement fails.
  pub complete_operation_idem :
      (s : Store)
      → (complete_operation op state result failure s).0 ≡ ok tt
      → (complete_operation op state result failure s).1.faults ≡ []
      → complete_operation op state result failure (complete_operation op state result failure s).1
        ≡ (ok tt, (complete_operation op state result failure s).1)
  complete_operation_idem s h calm =
      let (terminal, valid) = accepted_terminal s h in
      again _ calm valid terminal (complete_operation-IsRecorded s h)
