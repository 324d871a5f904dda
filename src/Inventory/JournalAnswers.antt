-- ===== src/Inventory/JournalAnswers.antt =====
-- What BeginOperation of internal/agent/inventory/journal.go answers, whatever SQLite does.
use cluster_api_hypervisor.Common.{
  ◌≡◌, ◌↔◌, refl, true, false, Bool, some, none, Option, [], ◌∷◌, ◌++◌, ℕ, find, arith, eq_iff,
  eq_refl, exists_row_of_find, exists_row-none, find-append_none, find_sound, if◌then◌else◌, subst,
  ap, sym,
}
use cluster_api_hypervisor.Exec.{Error, Result, ok, err, Exec, raise, idempotency_conflict}
use cluster_api_hypervisor.Exec.Triple.{
  Triple, Triple-pure, Triple-raise, Triple-if, Triple-bind, Triple-reading,
}
use cluster_api_hypervisor.Inventory.{Operation, intent, Tables, Store, statement}
use cluster_api_hypervisor.Inventory.Steps.{Triple-statement}
use cluster_api_hypervisor.Inventory.Journal.{
  at_key_of, has_key, found_operation, same_request, is_terminal, rollback, transaction,
  insert_intent, load_operation, intent_row, begin_body, begin_operation, validate_operation,
}
use cluster_api_hypervisor.Inventory.JournalPosts.{transaction-post}

-- A journal row is of the request that an operation describes.
pub record IsOf (op row : Operation) : Type 0 where
  pub installation : row.installation_id ≡ op.installation_id
  pub owner : row.owner_uid ≡ op.owner_uid
  pub key : row.key ≡ op.key
  pub node : row.node_id ≡ op.node_id
  pub kind : row.kind ≡ op.kind
  pub hash : row.request_hash ≡ op.request_hash
  pub generation : row.generation ≡ op.generation

pub IsOf-same :
    (op row : Operation) → at_key_of op row ≡ true → same_request row op ≡ true → IsOf op row
unfolding has_key same_request
IsOf-same op row h k = record {
  installation = ground (arith, eq_iff row.installation_id op.installation_id);
  owner = ground (arith, eq_iff row.owner_uid op.owner_uid);
  key = ground (arith, eq_iff row.key op.key);
  node = ground (arith, eq_iff row.node_id op.node_id);
  kind = ground (arith, eq_iff row.kind op.kind);
  hash = ground (arith, eq_iff row.request_hash op.request_hash);
  generation = ground (arith);
}

-- An open intent, with nothing of an outcome.
pub record IsFresh (row : Operation) : Type 0 where
  pub is_open : row.state ≡ intent
  pub no_result : row.result ≡ ""
  pub no_failure : row.failure ≡ ""

-- What the row at the key was before: this row, and no table changed; or none, and it is fresh.
abbrev pub Since : Operation → Option Operation → Tables → Tables → Type 0
Since row none before after =
    IsFresh row × (after ≡ record before { journal = before.journal ++ row ∷ [] })
Since row (some old) before after = (row ≡ old) × (after ≡ before)

-- A row that was begun: it is stored at the key, of the request, and a replay if it has an outcome.
pub record IsBegun (op row : Operation) (replay : Bool) (before after : Tables) : Type 0 where
  pub stored : find (at_key_of op) after.journal ≡ some row
  pub of_request : IsOf op row
  pub replays : (replay ≡ false) ↔ (row.state ≡ intent)
  pub since : Since row (find (at_key_of op) before.journal) before after

-- What the body of the transaction leaves.
record Loaded (op row : Operation) (replay : Bool) (before after : Tables) : Type 0 where
  now : ℕ
  inserted : after ≡ (insert_intent op now before).1
  found : find (at_key_of op) after.journal ≡ some row
  same : same_request row op ≡ true
  verdict : replay ≡ is_terminal row.state

module _ (op : Operation) (before : Tables) where
  load-stored :
      (t : Tables)
      → Triple
          (λ s. s.tables ≡ t)
          (statement (load_operation op))
          (λ row s. (s.tables ≡ t) × (find (at_key_of op) s.journal ≡ some row))
  unfolding load_operation
  load-stored t =
      Triple-statement (load_operation op) (λ u. u ≡ t)
        (λ row u. (u ≡ t) × (find (at_key_of op) u.journal ≡ some row))
        (λ u h row e. (h, found (find (at_key_of op) u.journal) row e))
    where
      found : (o : Option Operation) (row : Operation) → found_operation o ≡ ok row → o ≡ some row
      found none row e = absurd (cc)
      found (some r) row e = cc

  body-Loaded :
      Triple
        (λ s. s.tables ≡ before)
        (begin_body op)
        (λ begun s. Loaded op begun.0 begun.1 before s.tables)
  unfolding begin_body
  body-Loaded = Triple-reading _ λ s.
      Triple-bind (λ _ v. v.tables ≡ (insert_intent op s.now before).1) _ _
        (Triple-statement (insert_intent op s.now) (λ t. t ≡ before)
          (λ _ t. t ≡ (insert_intent op s.now before).1)
          (λ t h _ _. ap (λ x. (insert_intent op s.now x).1) h))
        λ _. Triple-bind _ _ _ (load-stored (insert_intent op s.now before).1) λ row.
          Triple-if _ _ _
            (λ same. Triple-pure _ (λ s' f. record {
              now = s.now;
              inserted = f.0;
              found = f.1;
              same = same;
              verdict = refl;
            }))
            (λ _. Triple-raise idempotency_conflict)

  begin-Loaded :
      Triple
        (λ s. s.tables ≡ before)
        (begin_operation op)
        (λ begun s. Loaded op begun.0 begun.1 before s.tables)
  unfolding begin_operation
  begin-Loaded =
      Triple-if _ _ _
        (λ _.
          transaction-post (λ t. t ≡ before) (λ begun t. Loaded op begun.0 begun.1 before t) _
            body-Loaded)
        (λ _. Triple-raise idempotency_conflict)

replay_cases :
    (row : Operation) (replay : Bool)
    → replay ≡ is_terminal row.state
    → (replay ≡ false) ↔ (row.state ≡ intent)
unfolding is_terminal
replay_cases row replay h = (λ k. ground arith, λ k. ground arith)

find_intent :
    (op : Operation) (now : ℕ)
    → find (at_key_of op) (intent_row op now ∷ []) ≡ some (intent_row op now)
unfolding find has_key
find_intent op now =
    ground (arith, eq_refl op.installation_id, eq_refl op.owner_uid, eq_refl op.key)

-- The row that a fresh key gets.
row-fresh :
    (op row : Operation) (now : ℕ) (before : Tables)
    → find (at_key_of op) before.journal ≡ none
    → find (at_key_of op) (before.journal ++ intent_row op now ∷ []) ≡ some row
    → row ≡ intent_row op now
row-fresh op row now before e f = ground (
  arith,
  find-append_none (at_key_of op) before.journal (intent_row op now ∷ []) e,
  find_intent op now,
)

Loaded-Since :
    (op row : Operation) (replay : Bool) (before after : Tables) (o : Option Operation)
    → find (at_key_of op) before.journal ≡ o
    → Loaded op row replay before after
    → Since row o before after
unfolding insert_intent
Loaded-Since op row replay before after (some old) e l =
    let taken = exists_row_of_find (at_key_of op) before.journal old e in
    let same : after ≡ before = ground (arith, l.inserted, taken) in
    (ground (arith, same, l.found), same)
Loaded-Since op row replay before after none e l =
    let free = exists_row-none (at_key_of op) before.journal e in
    let put : after ≡ record before { journal = before.journal ++ intent_row op l.now ∷ [] } =
      ground (arith, l.inserted, free) in
    let fresh =
      row-fresh op row l.now before e
        (subst (λ t. find (at_key_of op) t.journal ≡ some row) put l.found) in
    (
      record {
        is_open = ap (λ x. x.state) fresh;
        no_result = ap (λ x. x.result) fresh;
        no_failure = ap (λ x. x.failure) fresh;
      },
      subst (λ x. after ≡ record before { journal = before.journal ++ x ∷ [] }) (sym fresh) put,
    )

-- A row that was begun, or an error that changed no table.
abbrev pub Begins : Operation → Tables → Result (Operation × Bool) × Store → Type 0
Begins op before (ok begun, s) = IsBegun op begun.0 begun.1 before s.tables
Begins op before (err _, s) = s.tables ≡ before

-- An action whose errors change no table.
abbrev IsUndone : {A : Type 0} → Exec Store A → Type 0
IsUndone m = (s : Store) (e : Error) → (m s).0 ≡ err e → (m s).1.tables ≡ s.tables

rollback_undone :
    {A : Type 0} (t : Tables) (r : Result A) (s : Store) (e : Error)
    → (rollback t (r, s)).0 ≡ err e
    → (rollback t (r, s)).1.tables ≡ t
rollback_undone t (ok a) s e h = absurd (cc)
rollback_undone t (err x) s e h = refl

transaction-IsUndone : {A : Type 0} (body : Exec Store A) → IsUndone (transaction body)
unfolding transaction
transaction-IsUndone body s e h = rollback_undone s.tables _ _ e h

if-IsUndone :
    {A : Type 0} (b : Bool) (m n : Exec Store A)
    → IsUndone m
    → IsUndone n
    → IsUndone (if b then m else n)
if-IsUndone true m n h k = h
if-IsUndone false m n h k = k

begin_operation-IsUndone : (op : Operation) → IsUndone (begin_operation op)
unfolding begin_operation raise
begin_operation-IsUndone op =
    if-IsUndone (validate_operation op) (transaction (begin_body op)) (raise idempotency_conflict)
      (transaction-IsUndone (begin_body op)) (λ s e h. refl)

Begins-cases :
    (op : Operation) (before : Tables) (r : Result (Operation × Bool)) (s : Store)
    → ((a : Operation × Bool) → r ≡ ok a → IsBegun op a.0 a.1 before s.tables)
    → ((e : Error) → r ≡ err e → s.tables ≡ before)
    → Begins op before (r, s)
Begins-cases op before (ok a) s h k = h a refl
Begins-cases op before (err e) s h k = k e refl

Loaded-IsBegun :
    (op row : Operation) (replay : Bool) (before after : Tables)
    → Loaded op row replay before after
    → IsBegun op row replay before after
Loaded-IsBegun op row replay before after l = record {
  stored = l.found;
  of_request = IsOf-same op row (find_sound (at_key_of op) after.journal row l.found) l.same;
  replays = replay_cases row replay l.verdict;
  since = Loaded-Since op row replay before after _ refl l;
}

-- A BeginOperation that returns a row has it stored at the key of the operation, for the same node,
-- kind, request hash and generation, and calls it a replay unless it is an open intent. If the key
-- was taken the row is the one that was there and no table changes; if it was free the row is an
-- intent without result or failure, appended to the journal. A BeginOperation that ends in an
-- error, of SQLite at any statement or a conflict, changes no table.
pub begin_operation-Begins :
    (op : Operation) (s : Store) → Begins op s.tables (begin_operation op s)
begin_operation-Begins op s =
    Begins-cases op s.tables _ _
      (λ a h. Loaded-IsBegun op a.0 a.1 s.tables _ ((begin-Loaded op s.tables).at s refl a h))
      (λ e h. begin_operation-IsUndone op s e h)
