-- ===== src/Examples/Ledgers.antt =====
-- Tests of internal/agent/ownership/ledger.go.
use cluster_api_hypervisor.Common.{true, false, ◌≡◌, refl, ◌||◌, none, [], ◌∷◌}
use cluster_api_hypervisor.Exec.{other, ok, err}
use cluster_api_hypervisor.Ownership.{
  InstallationId, Ledger, holds, Disk, FileSystem, decoded_ledger, registered, register,
  validate_ledger, same_id, owns, less, are_sorted, no_duplicate, valid_predecessors, contains_any,
  is_id, rename, load_ledger, validate_id, write_atomic, file_call, fill_temporary, deferred,
  unique_sorted, sort_strings, insert_id, drop_repeated,
}
use cluster_api_hypervisor.Ownership.Sorting.{listed}
use cluster_api_hypervisor.Ownership.Laws.{owns-listed}
use cluster_api_hypervisor.Ownership.Register.{Registers, register-Registers, register-failed}
use cluster_api_hypervisor.Ownership.Accepts.{register-accepts}
use cluster_api_hypervisor.Exec.{◌>>=◌, lift, pure, raise}
use cluster_api_hypervisor.Common.{exists_row}

-- The IDs "a" to "d"
abbrev a : InstallationId
a = 97 ∷ []

abbrev b : InstallationId
b = 98 ∷ []

abbrev c : InstallationId
c = 99 ∷ []

abbrev d : InstallationId
d = 100 ∷ []

abbrev ledger : Ledger
ledger = record { current = b; predecessors = a ∷ d ∷ [] }

abbrev disk : Disk
disk = record { stored = holds ledger; temporary = none }

-- Every call succeeds, or the rename fails.
abbrev env : FileSystem
env = record { is_absolute = true; fails = λ _. false }

abbrev full : FileSystem
full = record { is_absolute = true; fails = λ x. elim x [ rename ↦ true | _ ↦ false ] }

ledger-valid : validate_ledger ledger ≡ ok tt
unfolding validate_ledger same_id contains_any valid_predecessors are_sorted no_duplicate less
ledger-valid = refl

owns-listed_example : owns ledger d ≡ (same_id d ledger.current || listed d ledger.predecessors)
owns-listed_example = owns-listed ledger d ledger-valid

loaded : decoded_ledger disk.stored ≡ ok ledger
unfolding decoded_ledger validate_ledger same_id contains_any valid_predecessors are_sorted
    no_duplicate less
loaded = refl

abbrev next : Ledger
next = record { current = c; predecessors = a ∷ b ∷ d ∷ [] }

returned : (register env c disk).0 ≡ ok next
unfolding register load_ledger validate_id lift pure raise ◌>>=◌ validate_ledger same_id
    contains_any valid_predecessors are_sorted no_duplicate less decoded_ledger registered
    unique_sorted sort_strings insert_id drop_repeated write_atomic file_call fill_temporary
    deferred
returned = refl

register-Registers_example : Registers c ledger next (register env c disk).1
register-Registers_example = register-Registers env c ledger disk loaded next returned

renaming : (register full c disk).0 ≡ err (other "ownership ledger directory")
unfolding register load_ledger validate_id lift pure raise ◌>>=◌ validate_ledger same_id
    contains_any valid_predecessors are_sorted no_duplicate less decoded_ledger registered
    unique_sorted sort_strings insert_id drop_repeated write_atomic file_call fill_temporary
    deferred
renaming = refl

register-failed_example : (register full c disk).1.stored ≡ holds ledger
register-failed_example = register-failed full c disk (other "ownership ledger directory") renaming

new_id : listed c ledger.predecessors ≡ false
unfolding exists_row same_id
new_id = refl

valid_id : is_id c ≡ true
unfolding same_id contains_any
valid_id = refl

register-accepts_example : (register env c disk).0 ≡ ok (registered env c ledger)
register-accepts_example =
    register-accepts env c ledger disk loaded valid_id new_id refl (λ _. refl)
