-- ===== src/Inventory/Steps.antt =====
-- What one SQL statement, and one transaction, do to a store: relations between the tables before
-- and after, whether or not SQLite fails.
use cluster_api_hypervisor.Common.{Bool, true, false, ◌≡◌, List, [], ◌∷◌}
use cluster_api_hypervisor.Exec.{ok}
use cluster_api_hypervisor.Exec.Triple.{Triple}
use cluster_api_hypervisor.Exec.Rules.{IsPreorder, Moves}
use cluster_api_hypervisor.Inventory.{Tables, Store, Query, run_with, run_query, statement}

-- A relation on tables, as one on stores.
pub record OnTables (R : Tables → Tables → Type 0) (s t : Store) : Type 0 where
  pub tables_moved : R s.tables t.tables

pub OnTables-IsPreorder : {R : Tables → Tables → Type 0} → IsPreorder R → IsPreorder (OnTables R)
OnTables-IsPreorder o = record {
  at_rest = λ s. record { tables_moved = o.at_rest s.tables };
  through = λ s t u h k. record {
    tables_moved = o.through s.tables t.tables u.tables h.tables_moved k.tables_moved;
  };
}

module _ {A : Type 0} {R : Tables → Tables → Type 0} (o : IsPreorder R) (q : Query A) where
  run_with-OnTables :
      ((t : Tables) → R t (q t).1)
      → (faults : List Bool) (s : Store) → OnTables R s (run_with faults q s).1
  run_with-OnTables h [] s = record { tables_moved = h s.tables }
  run_with-OnTables h (true ∷ later) s = record { tables_moved = o.at_rest s.tables }
  run_with-OnTables h (false ∷ later) s = record { tables_moved = h s.tables }

  pub Moves-statement : ((t : Tables) → R t (q t).1) → Moves (OnTables R) (statement q)
  unfolding statement
  Moves-statement h = record { at = λ s. run_with-OnTables h s.faults s }

-- A statement that SQLite is not going to fail.
pub statement-no_faults :
    {A : Type 0} (q : Query A) (s : Store) → s.faults ≡ [] → statement q s ≡ run_query q s
unfolding statement
statement-no_faults q s h = rw h

module _ {A : Type 0} (q : Query A) (P : Tables → Type 0) (Q : A → Tables → Type 0) where
  run_with-post :
      ((t : Tables) → P t → (a : A) → (q t).0 ≡ ok a → Q a (q t).1)
      → (faults : List Bool) (s : Store) → P s.tables
      → (a : A) → (run_with faults q s).0 ≡ ok a
      → Q a (run_with faults q s).1.tables
  run_with-post h [] s p a e = h s.tables p a e
  run_with-post h (true ∷ later) s p a e = absurd (cc)
  run_with-post h (false ∷ later) s p a e = h s.tables p a e

  -- A statement that SQLite runs establishes what its query does.
  pub Triple-statement :
      ((t : Tables) → P t → (a : A) → (q t).0 ≡ ok a → Q a (q t).1)
      → Triple (λ s. P s.tables) (statement q) (λ a s. Q a s.tables)
  unfolding statement
  Triple-statement h = record { at = λ s p a e. run_with-post h s.faults s p a e }
