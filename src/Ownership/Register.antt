-- ===== src/Ownership/Register.antt =====
-- What Register of internal/agent/ownership/ledger.go returns and leaves on the disk.
use cluster_api_hypervisor.Common.{
  true, false, ◌||◌, ◌≡◌, refl, sym, ap, subst, ◌⊎◌, inl, inr, none, List, [], ◌∷◌, ◌++◌, arith,
  exists_row,
}
use cluster_api_hypervisor.Exec.{Error, Result, ok, err, lift, pure, raise, ◌>>=◌}
use cluster_api_hypervisor.Ownership.{
  InstallationId, Ledger, same_id, owns, valid_predecessors, are_sorted, no_duplicate,
  validate_ledger, validate_id, invalid_installation_id, Stored, holds, Disk, FileSystem,
  decoded_ledger, load_ledger, registered, register, write_atomic, file_call, fill_temporary,
  deferred,
}
use cluster_api_hypervisor.Ownership.Sorting.{
  same_refl, same_sound, listed, listed-append, listed-unique_sorted,
}
use cluster_api_hypervisor.Ownership.Laws.{owns-listed}

-- How a write of a ledger ends: with the ledger at the path and no temporary file, or in an error
-- with what was at the path before.
abbrev Ends : {A : Type 0} → Ledger → Disk → Result A × Disk → Type 0
Ends l d (ok _, d') = (d'.stored ≡ holds l) × (d'.temporary ≡ none)
Ends l d (err _, d') = d'.stored ≡ d.stored

fill_temporary-Ends : (e : FileSystem) (l : Ledger) (d : Disk) → Ends l d (fill_temporary e l d)
unfolding fill_temporary file_call ◌>>=◌
fill_temporary-Ends e l d = ground arith

pub decoded_ledger-valid :
    (s : Stored) (l : Ledger) → decoded_ledger s ≡ ok l → validate_ledger l ≡ ok tt
unfolding decoded_ledger validate_ledger valid_predecessors are_sorted no_duplicate same_id
decoded_ledger-valid s l h = ground arith

write_atomic-Ends : (e : FileSystem) (l : Ledger) (d : Disk) → Ends l d (write_atomic e l d)
unfolding write_atomic file_call deferred raise ◌>>=◌ fill_temporary
write_atomic-Ends e l d = ground arith

-- A ledger that was registered over another.
pub record Registers (id : InstallationId) (old l : Ledger) (d : Disk) : Type 0 where
  pub is_current : l.current ≡ id
  pub is_valid : validate_ledger l ≡ ok tt
  pub is_stored : d.stored ≡ holds l
  pub no_temporary : d.temporary ≡ none
  pub owned : (x : InstallationId) → same_id x [] ≡ false → owns l x ≡ (same_id x id || owns old x)

module _ (e : FileSystem) (id : InstallationId) (old : Ledger) (d : Disk)
    (loads : decoded_ledger d.stored ≡ ok old) where
  registered-owned :
      validate_ledger (registered e id old) ≡ ok tt
      → (x : InstallationId) → same_id x [] ≡ false
      → owns (registered e id old) x ≡ (same_id x id || owns old x)
  unfolding registered
  registered-owned h x k = ground (
    arith,
    owns-listed (registered e id old) x h,
    owns-listed old x (decoded_ledger-valid d.stored old loads),
    same_sound old.current [],
    same_sound old.current id,
    listed-append x old.current old.predecessors,
    listed-unique_sorted x old.predecessors,
    listed-unique_sorted x (old.predecessors ++ (old.current ∷ [])),
  )

  result :
      (l : Ledger)
      → (register e id d).0 ≡ ok l
      → (l ≡ registered e id old)
        × (validate_ledger (registered e id old) ≡ ok tt)
        × ((register e id d).1.stored ≡ holds (registered e id old))
        × ((register e id d).1.temporary ≡ none)
  unfolding register load_ledger validate_id lift pure ◌>>=◌
  result l h = ground (arith, write_atomic-Ends e (registered e id old) d)

  -- A ledger that Register returns has the ID as its current installation, is valid, and is what
  -- stands at the path, with no temporary file left; it owns the ID and what the ledger before it
  -- owned, and no other ID but perhaps the empty one.
  pub register-Registers :
      (l : Ledger) → (register e id d).0 ≡ ok l → Registers id old l (register e id d).1
  unfolding registered
  register-Registers l h =
      let (same_l, valid, stored, gone) = result l h in
      record {
        is_current = ap (λ x. x.current) same_l;
        is_valid = subst (λ x. validate_ledger x ≡ ok tt) (sym same_l) valid;
        is_stored = subst (λ x. (register e id d).1.stored ≡ holds x) (sym same_l) stored;
        no_temporary = gone;
        owned = λ x k.
            subst (λ y. owns y x ≡ (same_id x id || owns old x)) (sym same_l)
              (registered-owned valid x k);
      }

  listed_not_valid :
      (ps : List InstallationId) → listed id ps ≡ true → valid_predecessors id ps ≡ false
  unfolding exists_row valid_predecessors
  listed_not_valid [] h = absurd (cc)
  listed_not_valid (p ∷ ps) h = ground (arith, same_sound id p, same_refl id, listed_not_valid ps)

  registered-listed :
      listed id old.predecessors ≡ true → listed id (registered e id old).predecessors ≡ true
  unfolding registered
  registered-listed h = ground (
    arith,
    listed-append id old.current old.predecessors,
    listed-unique_sorted id old.predecessors,
    listed-unique_sorted id (old.predecessors ++ (old.current ∷ [])),
  )

  refused :
      valid_predecessors id (registered e id old).predecessors ≡ false
      → register e id d ≡ (err invalid_installation_id, d)
  unfolding register load_ledger validate_id validate_ledger lift ◌>>=◌ registered
  refused h = ground arith

  -- Register refuses an ID that the ledger at the path lists as a predecessor, and changes nothing.
  pub register-predecessor :
      listed id old.predecessors ≡ true → register e id d ≡ (err invalid_installation_id, d)
  register-predecessor h =
      refused (listed_not_valid (registered e id old).predecessors (registered-listed h))

-- A Register that ends in an error leaves what stands at the path.
pub register-failed :
    (e : FileSystem) (id : InstallationId) (d : Disk) (x : Error)
    → (register e id d).0 ≡ err x
    → (register e id d).1.stored ≡ d.stored
unfolding register load_ledger validate_id lift pure ◌>>=◌
register-failed e id d x h = elim (decoded_cases (decoded_ledger d.stored)) [
  | inl (l, k) ↦ ground (arith, write_atomic-Ends e (registered e id l) d)
  | inr (y, k) ↦ ground (arith)
]
  where
    decoded_cases : (r : Result Ledger) → ((l : Ledger) × (r ≡ ok l)) ⊎ ((y : Error) × (r ≡ err y))
    decoded_cases (ok l) = inl (l, refl)
    decoded_cases (err y) = inr (y, refl)
