-- ===== src/Inventory/JournalSteps.antt =====
-- Whole methods of internal/agent/inventory/journal.go, under any failures of SQLite: a relation on
-- tables that the two writing statements respect is respected by BeginOperation and
-- CompleteOperation. Two instances: the journal's rows are kept, and the published ports too.
use cluster_api_hypervisor.Common.{ℕ, String, ◌≡◌, refl, ◌∙◌, arith}
use cluster_api_hypervisor.Exec.{Result, ok, err, Exec, pure, ◌>>=◌, ◌>>◌}
use cluster_api_hypervisor.Exec.Rules.{
  IsPreorder, Moves, Moves-pure, Moves-raise, Moves-if, Moves-bind, Moves-reading,
}
use cluster_api_hypervisor.Inventory.{
  OperationState, Operation, Tables, Store, Query, statement, no_rows_touched,
}
use cluster_api_hypervisor.Inventory.Steps.{OnTables, OnTables-IsPreorder, Moves-statement}
use cluster_api_hypervisor.Inventory.Journal.{
  insert_intent, load_operation, record_outcome, rollback, transaction, begin_body, begin_operation,
  close_operation, complete_operation,
}
use cluster_api_hypervisor.Inventory.JournalLaws.{
  JournalKept, JournalKept-IsPreorder, insert_intent-JournalKept, record_outcome-JournalKept,
}

rollback-OnTables :
    {A : Type 0} {R : Tables → Tables → Type 0} (o : IsPreorder R) (s : Store)
    → (r : Result A) (s' : Store) → OnTables R s s'
    → OnTables R s (rollback s.tables (r, s')).1
rollback-OnTables o s (ok a) s' h = h
rollback-OnTables o s (err e) s' h = record { tables_moved = o.at_rest s.tables }

module _ {R : Tables → Tables → Type 0} (o : IsPreorder R) where
  stores : IsPreorder (OnTables R)
  stores = OnTables-IsPreorder o

  no_write-OnTables :
      {A : Type 0} (q : Query A) → ((t : Tables) → (q t).1 ≡ t) → Moves (OnTables R) (statement q)
  no_write-OnTables q h = Moves-statement o q (λ t. rw (h t) (o.at_rest t))

  Moves-transaction :
      {A : Type 0} (body : Exec Store A)
      → Moves (OnTables R) body
      → Moves (OnTables R) (transaction body)
  unfolding transaction
  Moves-transaction {A} body k = record { at = λ s. rollback-OnTables o s _ _ (whole.at s) }
    where
      touch : Moves (OnTables R) (statement no_rows_touched)
      touch = no_write-OnTables no_rows_touched (λ t. refl)

      whole :
          Moves
            (OnTables R)
            (statement no_rows_touched >> body >>= λ a. statement no_rows_touched >> pure a)
      whole =
          Moves-bind stores _ _ (Moves-bind stores _ _ touch (λ _. k))
            (λ a. Moves-bind stores _ _ touch (λ _. Moves-pure stores a))

  module _
      (inserts : (op : Operation) (now : ℕ) (t : Tables) → R t (insert_intent op now t).1) where
    begin_body-OnTables : (op : Operation) → Moves (OnTables R) (begin_body op)
    unfolding begin_body load_operation
    begin_body-OnTables op = Moves-reading _ λ s.
        Moves-bind stores _ _ (Moves-statement o _ (inserts op s.now)) (λ _.
          Moves-bind stores _ _ (no_write-OnTables (load_operation op) (λ t. refl))
            (λ stored. Moves-if _ _ _ (Moves-pure stores _) (Moves-raise stores _)))

    begin_operation-OnTables : (op : Operation) → Moves (OnTables R) (begin_operation op)
    unfolding begin_operation
    begin_operation-OnTables op =
        Moves-if _ _ _ (Moves-transaction _ (begin_body-OnTables op)) (Moves-raise stores _)

    module _
        (outcomes : (op : Operation) (state : OperationState) (result failure : String) (now : ℕ)
            (t : Tables)
          → R t (record_outcome op state result failure now t).1) where
      close_operation-OnTables :
          (op : Operation) (state : OperationState) (result failure : String) (stored : Operation)
          → Moves (OnTables R) (close_operation op state result failure stored)
      unfolding close_operation
      close_operation-OnTables op state result failure stored = Moves-reading _ λ s.
          Moves-if _ _ _
            (Moves-bind stores _ _ (Moves-statement o _ (outcomes op state result failure s.now))
              (λ rows. Moves-if _ _ _ (Moves-pure stores _) (Moves-raise stores _)))
            (Moves-if _ _ _ (Moves-pure stores _) (Moves-raise stores _))

      complete_operation-OnTables :
          (op : Operation) (state : OperationState) (result failure : String)
          → Moves (OnTables R) (complete_operation op state result failure)
      unfolding complete_operation
      complete_operation-OnTables op state result failure =
          Moves-if _ _ _
            (Moves-bind stores _ _ (begin_operation-OnTables op)
              (λ begun. close_operation-OnTables op state result failure begun.0))
            (Moves-raise stores _)

abbrev pub JournalStep : Store → Store → Type 0
JournalStep = OnTables JournalKept

pub step_order : IsPreorder JournalStep
step_order = OnTables-IsPreorder JournalKept-IsPreorder

-- However BeginOperation ends, and whichever statements SQLite fails: no row leaves the journal,
-- each keeps its node, kind, hash, generation and creation time, a row with an outcome is unchanged,
-- and unique keys stay unique.
pub begin_operation-JournalStep : (op : Operation) → Moves JournalStep (begin_operation op)
begin_operation-JournalStep =
    begin_operation-OnTables JournalKept-IsPreorder insert_intent-JournalKept

-- However CompleteOperation ends, and whichever statements SQLite fails: no row leaves the journal,
-- each keeps its node, kind, hash, generation and creation time, a row with an outcome is unchanged,
-- and unique keys stay unique.
pub complete_operation-JournalStep :
    (op : Operation) (state : OperationState) (result failure : String)
    → Moves JournalStep (complete_operation op state result failure)
complete_operation-JournalStep =
    complete_operation-OnTables JournalKept-IsPreorder insert_intent-JournalKept
      record_outcome-JournalKept

-- The journal's methods write no other table.
pub record SameOthers (t u : Tables) : Type 0 where
  pub same_ports : u.ports ≡ t.ports
  pub same_vms : u.vms ≡ t.vms

SameOthers-IsPreorder : IsPreorder SameOthers
SameOthers-IsPreorder = record {
  at_rest = λ t. record { same_ports = refl; same_vms = refl };
  through = λ t u v h k. record {
    same_ports = k.same_ports ∙ h.same_ports;
    same_vms = k.same_vms ∙ h.same_vms;
  };
}

insert_intent-SameOthers :
    (op : Operation) (now : ℕ) (t : Tables) → SameOthers t (insert_intent op now t).1
unfolding insert_intent
insert_intent-SameOthers op now t = ground arith

record_outcome-SameOthers :
    (op : Operation) (state : OperationState) (result failure : String) (now : ℕ) (t : Tables)
    → SameOthers t (record_outcome op state result failure now t).1
unfolding record_outcome
record_outcome-SameOthers op state result failure now t = record {
  same_ports = refl;
  same_vms = refl;
}

pub begin_operation-SameOthers : (op : Operation) → Moves (OnTables SameOthers) (begin_operation op)
begin_operation-SameOthers = begin_operation-OnTables SameOthers-IsPreorder insert_intent-SameOthers

pub complete_operation-SameOthers :
    (op : Operation) (state : OperationState) (result failure : String)
    → Moves (OnTables SameOthers) (complete_operation op state result failure)
complete_operation-SameOthers =
    complete_operation-OnTables SameOthers-IsPreorder insert_intent-SameOthers
      record_outcome-SameOthers
