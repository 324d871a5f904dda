-- ===== src/Inventory/JournalLaws.antt =====
-- The journal of internal/agent/inventory/journal.go: a key keeps the request that it was first
-- used for, and a recorded outcome is never changed.
use cluster_api_hypervisor.Common.{
  ◌≤◌, false, Bool, [], ◌∷◌, eq_iff, affected, affected-append, affected-update,
  affected-none_of_exists, ℕ, String, true, ◌≡◌, refl, sym, ◌∙◌, subst, Option, none, some, List,
  ◌++◌, arith, Option-cases, Bool-cases, inl, inr, find, exists_row, when, map_option, find-update,
  find-append_some,
}
use cluster_api_hypervisor.Exec.Rules.{IsPreorder}
use cluster_api_hypervisor.Inventory.{OperationState, Operation, Tables}
use cluster_api_hypervisor.Inventory.Journal.{
  is_terminal, same_state, has_key, at_key_of, open_intent, with_outcome, intent_row, insert_intent,
  record_outcome,
}

-- The columns of a journal row that identify the request.
pub record SameRow (a b : Operation) : Type 0 where
  pub same_node : b.node_id ≡ a.node_id
  pub same_kind : b.kind ≡ a.kind
  pub same_hash : b.request_hash ≡ a.request_hash
  pub same_generation : b.generation ≡ a.generation
  pub same_creation : b.created_at ≡ a.created_at
  pub settled : is_terminal a.state ≡ true → b ≡ a

-- What may become of the row at a key: none may appear, and a row keeps its request; once it has an
-- outcome it does not change at all.
abbrev pub Evolves : Option Operation → Option Operation → Type 0
Evolves none after = Unit
Evolves (some a) none = ⊥
Evolves (some a) (some b) = SameRow a b

Evolves-refl : (o : Option Operation) → Evolves o o
Evolves-refl none = tt
Evolves-refl (some a) = ground arith

Evolves-trans : (a b c : Option Operation) → Evolves a b → Evolves b c → Evolves a c
Evolves-trans none b c h k = tt
Evolves-trans (some a) none c h k = absurd h
Evolves-trans (some a) (some b) none h k = absurd k
Evolves-trans (some a) (some b) (some c) h k = record {
  same_node = k.same_node ∙ h.same_node;
  same_kind = k.same_kind ∙ h.same_kind;
  same_hash = k.same_hash ∙ h.same_hash;
  same_generation = k.same_generation ∙ h.same_generation;
  same_creation = k.same_creation ∙ h.same_creation;
  settled =
      λ t. let e = h.settled t in k.settled (subst (λ x. is_terminal x.state ≡ true) (sym e) t) ∙ e;
}

-- The primary key of operation_journal.
abbrev pub IsKeyed : List Operation → Type 0
IsKeyed rows = (i u k : String) → affected (has_key i u k) rows ≤ 1

-- No row leaves the journal, every row evolves, and keys stay unique.
pub record JournalKept (t u : Tables) : Type 0 where
  pub at_key :
      (i u' k : String)
      → Evolves (find (has_key i u' k) t.journal) (find (has_key i u' k) u.journal)
  pub keys : IsKeyed t.journal → IsKeyed u.journal

pub JournalKept-IsPreorder : IsPreorder JournalKept
JournalKept-IsPreorder = record {
  at_rest = λ t. record { at_key = λ i u k. Evolves-refl _; keys = λ h. h };
  through = λ t u v h k. record {
    at_key = λ i u' k'. Evolves-trans _ _ _ (h.at_key i u' k') (k.at_key i u' k');
    keys = λ x. k.keys (h.keys x);
  };
}

-- A write to the other tables.
pub JournalKept-other : (t u : Tables) → u.journal ≡ t.journal → JournalKept t u
JournalKept-other t u h = record {
  at_key = λ i u' k. rw h (Evolves-refl (find (has_key i u' k) t.journal));
  keys = λ keyed. rw h keyed;
}

Evolves-append :
    (i u k : String) (rows more : List Operation)
    → Evolves (find (has_key i u k) rows) (find (has_key i u k) (rows ++ more))
Evolves-append i u k rows more = elim (Option-cases (find (has_key i u k) rows)) [
  | inl e ↦ rw e tt
  | inr (r, e) ↦ rw (e, find-append_some (has_key i u k) rows more r e) (Evolves-refl (some r))
]

own_key :
    (op : Operation) (now : ℕ) (i u k : String)
    → has_key i u k (intent_row op now) ≡ true
    → (i ≡ op.installation_id) × (u ≡ op.owner_uid) × (k ≡ op.key)
unfolding has_key
own_key op now i u k h =
    ground (arith, eq_iff op.installation_id i, eq_iff op.owner_uid u, eq_iff op.key k)

one_row : (p : Operation → Bool) (r : Operation) → affected p (r ∷ []) ≤ 1
unfolding affected
one_row p r = ground arith

no_row : (p : Operation → Bool) (r : Operation) → p r ≡ false → affected p (r ∷ []) ≡ 0
unfolding affected
no_row p r h = ground arith

IsKeyed-insert :
    (op : Operation) (now : ℕ) (rows : List Operation)
    → exists_row (at_key_of op) rows ≡ false
    → IsKeyed rows
    → IsKeyed (rows ++ intent_row op now ∷ [])
IsKeyed-insert op now rows new keyed i u k = elim (Bool-cases (has_key i u k (intent_row op now))) [
  | inl e ↦
      let (a, b, c) = own_key op now i u k e in
      rw (a, b, c)
        (omega (
          arith,
          affected-append (at_key_of op) rows (intent_row op now ∷ []),
          affected-none_of_exists (at_key_of op) rows new,
          one_row (at_key_of op) (intent_row op now),
        ))
  | inr e ↦ omega (
    arith,
    keyed i u k,
    affected-append (has_key i u k) rows (intent_row op now ∷ []),
    no_row (has_key i u k) (intent_row op now) e,
  )
]

pub insert_intent-JournalKept :
    (op : Operation) (now : ℕ) (t : Tables) → JournalKept t (insert_intent op now t).1
unfolding insert_intent
insert_intent-JournalKept op now t = elim (Bool-cases (exists_row (at_key_of op) t.journal)) [
  | inl e ↦ rw e (JournalKept-IsPreorder.at_rest t)
  | inr e ↦ rw e (record {
    at_key = λ i u k. Evolves-append i u k t.journal _;
    keys = IsKeyed-insert op now t.journal e;
  })
]

-- The UPDATE of complete_operation.sql writes open intents only, and no key column.
Evolves-outcome :
    (op : Operation) (state : OperationState) (result failure : String) (now : ℕ)
    → (o : Option Operation)
    → Evolves o (map_option (when (open_intent op) (with_outcome state result failure now)) o)
unfolding is_terminal same_state
Evolves-outcome op state result failure now none = tt
Evolves-outcome op state result failure now (some r) = ground arith

pub record_outcome-JournalKept :
    (op : Operation) (state : OperationState) (result failure : String) (now : ℕ) (t : Tables)
    → JournalKept t (record_outcome op state result failure now t).1
unfolding record_outcome has_key
record_outcome-JournalKept op state result failure now t = record {
  at_key = λ i u k.
      rw
        (find-update (has_key i u k) (open_intent op) (with_outcome state result failure now)
          t.journal (λ r. refl))
        (Evolves-outcome op state result failure now (find (has_key i u k) t.journal));
  keys = λ keyed i u k.
      rw
        (affected-update (has_key i u k) (open_intent op) (with_outcome state result failure now)
          t.journal (λ r. refl))
        (keyed i u k);
}
