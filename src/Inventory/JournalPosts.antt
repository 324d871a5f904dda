-- ===== src/Inventory/JournalPosts.antt =====
-- What a successful BeginOperation of internal/agent/inventory/journal.go returns.
use cluster_api_hypervisor.Common.{◌≡◌, true, some, none, Option, find}
use cluster_api_hypervisor.Exec.{Result, ok, err, Exec, pure, idempotency_conflict, ◌>>=◌, ◌>>◌}
use cluster_api_hypervisor.Exec.Triple.{
  Triple, Triple-pure, Triple-raise, Triple-if, Triple-bind, Triple-reading,
}
use cluster_api_hypervisor.Inventory.{Operation, Tables, Store, statement, no_rows_touched}
use cluster_api_hypervisor.Inventory.Steps.{Triple-statement}
use cluster_api_hypervisor.Inventory.Journal.{
  at_key_of, found_operation, same_request, rollback, transaction, insert_intent, load_operation,
  begin_body, begin_operation,
}

-- What BeginOperation returns is the row at the key, and it is of the same request.
abbrev pub IsStored : Operation → Operation → Tables → Type 0
IsStored op row t = (find (at_key_of op) t.journal ≡ some row) × (same_request row op ≡ true)

load-post :
    (op : Operation)
    → Triple
        (λ s. Unit)
        (statement (load_operation op))
        (λ row s. find (at_key_of op) s.journal ≡ some row)
unfolding load_operation
load-post op =
    Triple-statement (load_operation op) (λ _. Unit)
      (λ row t. find (at_key_of op) t.journal ≡ some row)
      (λ t _ row e. found (find (at_key_of op) t.journal) row e)
  where
    found : (o : Option Operation) (row : Operation) → found_operation o ≡ ok row → o ≡ some row
    found none row e = absurd (cc)
    found (some r) row e = cc

touch-post :
    (P : Tables → Type 0) → Triple (λ s. P s.tables) (statement no_rows_touched) (λ _ s. P s.tables)
touch-post P = Triple-statement no_rows_touched P (λ _ t. P t) (λ t h a e. h)

begin_body-post :
    (op : Operation) → Triple (λ s. Unit) (begin_body op) (λ begun s. IsStored op begun.0 s.tables)
unfolding begin_body
begin_body-post op = Triple-reading _ λ s.
    Triple-bind (λ _ _. Unit) _ _
      (Triple-statement (insert_intent op s.now) (λ _. Unit) (λ _ _. Unit) (λ _ _ _ _. tt))
      λ _. Triple-bind _ _ _ (load-post op) λ row.
        Triple-if _ _ _ (λ same. Triple-pure _ (λ s' f. (f, same)))
          (λ _. Triple-raise idempotency_conflict)

rollback-post :
    {A : Type 0} (Q : A → Tables → Type 0) (t : Tables) (r : Result A) (s : Store) (a : A)
    → (rollback t (r, s)).0 ≡ ok a
    → (r ≡ ok a → Q a s.tables)
    → Q a (rollback t (r, s)).1.tables
rollback-post Q t (ok b) s a e h = h e
rollback-post Q t (err x) s a e h = absurd (cc)

pub transaction-post :
    {A : Type 0} (P : Tables → Type 0) (Q : A → Tables → Type 0) (body : Exec Store A)
    → Triple (λ s. P s.tables) body (λ a s. Q a s.tables)
    → Triple (λ s. P s.tables) (transaction body) (λ a s. Q a s.tables)
unfolding transaction
transaction-post {A} P Q body k = record {
  at = λ s p a e. rollback-post Q s.tables _ _ a e (λ x. whole.at s p a x);
}
  where
    whole :
        Triple
          (λ s. P s.tables)
          (statement no_rows_touched >> body >>= λ a. statement no_rows_touched >> pure a)
          (λ a s. Q a s.tables)
    whole =
        Triple-bind _ _ _ (Triple-bind (λ _ s. P s.tables) _ _ (touch-post P) (λ _. k))
          (λ a. Triple-bind _ _ _ (touch-post (Q a)) (λ _. Triple-pure a (λ s h. h)))

pub begin_operation-post :
    (op : Operation)
    → Triple (λ s. Unit) (begin_operation op) (λ begun s. IsStored op begun.0 s.tables)
unfolding begin_operation
begin_operation-post op =
    Triple-if _ _ _
      (λ _. transaction-post (λ _. Unit) (λ begun t. IsStored op begun.0 t) _ (begin_body-post op))
      (λ _. Triple-raise idempotency_conflict)
