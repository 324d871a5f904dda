-- ===== src/Ownership/Accepts.antt =====
-- When Register of internal/agent/ownership/ledger.go succeeds: uniqueSorted leaves a slice that
-- Validate accepts.
use cluster_api_hypervisor.Common.{
  true, false, not, ◌&&◌, ◌≡◌, refl, Option, none, some, List, [], ◌∷◌, ◌++◌, arith, exists_row,
}
use cluster_api_hypervisor.Exec.{ok, lift, pure, raise, ◌>>=◌}
use cluster_api_hypervisor.Ownership.{
  InstallationId, Ledger, same_id, less, is_id, valid_predecessors, are_sorted, no_duplicate,
  validate_ledger, validate_id, insert_id, sort_strings, drop_repeated, unique_sorted, Disk,
  FileSystem, FileCall, make_directory, encode, create_temporary, change_mode, write, sync, close,
  rename, decoded_ledger, load_ledger, registered, register, write_atomic, file_call,
  fill_temporary, deferred,
}
use cluster_api_hypervisor.Ownership.Sorting.{same_refl, same_sound, listed}
use cluster_api_hypervisor.Ownership.Register.{decoded_ledger-valid}

less_asym : (x y : InstallationId) → less x y ≡ true → less y x ≡ false
unfolding less
less_asym [] [] h = refl
less_asym [] (y ∷ ys) h = refl
less_asym (x ∷ xs) [] h = absurd (cc)
less_asym (x ∷ xs) (y ∷ ys) h = ground (arith, less_asym xs ys)

insert_id-sorted_after :
    (z x : InstallationId) (ys : List InstallationId)
    → are_sorted (z ∷ ys) ≡ true
    → less x z ≡ false
    → are_sorted (z ∷ insert_id x ys) ≡ true
unfolding are_sorted insert_id
insert_id-sorted_after z x [] h k = ground arith
insert_id-sorted_after z x (y ∷ ys) h k =
    ground (arith, less_asym y x, insert_id-sorted_after y x ys)

insert_id-sorted :
    (x : InstallationId) (ys : List InstallationId)
    → are_sorted ys ≡ true
    → are_sorted (insert_id x ys) ≡ true
unfolding are_sorted insert_id
insert_id-sorted x [] h = refl
insert_id-sorted x (y ∷ ys) h = ground (arith, less_asym y x, insert_id-sorted_after y x ys)

sort_strings-sorted : (xs : List InstallationId) → are_sorted (sort_strings xs) ≡ true
unfolding are_sorted sort_strings
sort_strings-sorted [] = refl
sort_strings-sorted (x ∷ xs) = insert_id-sorted x (sort_strings xs) (sort_strings-sorted xs)

drop_repeated-after :
    (z : InstallationId) (xs : List InstallationId)
    → are_sorted (z ∷ xs) ≡ true
    → (are_sorted (z ∷ drop_repeated (some z) xs) && no_duplicate (z ∷ drop_repeated (some z) xs))
      ≡ true
unfolding are_sorted no_duplicate drop_repeated
drop_repeated-after z [] h = refl
drop_repeated-after z (x ∷ xs) h = ground (arith, same_sound z x, drop_repeated-after x xs)

-- uniqueSorted leaves a sorted slice with no two neighbours alike.
unique_sorted-strict :
    (xs : List InstallationId)
    → (are_sorted (unique_sorted xs) && no_duplicate (unique_sorted xs)) ≡ true
unfolding unique_sorted drop_repeated are_sorted no_duplicate
unique_sorted-strict xs = strict (sort_strings xs) (sort_strings-sorted xs)
  where
    strict :
        (ys : List InstallationId)
        → are_sorted ys ≡ true
        → (are_sorted (drop_repeated none ys) && no_duplicate (drop_repeated none ys)) ≡ true
    strict [] h = refl
    strict (y ∷ ys) h = drop_repeated-after y ys h

module _ (c : InstallationId) where
  insert_id-valid :
      (x : InstallationId) (ys : List InstallationId)
      → valid_predecessors c (insert_id x ys) ≡ valid_predecessors c (x ∷ ys)
  unfolding valid_predecessors insert_id
  insert_id-valid x [] = refl
  insert_id-valid x (y ∷ ys) = ground (arith, insert_id-valid x ys)

  sort_strings-valid :
      (xs : List InstallationId) → valid_predecessors c (sort_strings xs) ≡ valid_predecessors c xs
  unfolding valid_predecessors sort_strings
  sort_strings-valid [] = refl
  sort_strings-valid (x ∷ xs) =
      ground (arith, insert_id-valid x (sort_strings xs), sort_strings-valid xs)

  drop_repeated-valid :
      (last : Option InstallationId) (xs : List InstallationId)
      → valid_predecessors c xs ≡ true
      → valid_predecessors c (drop_repeated last xs) ≡ true
  unfolding valid_predecessors drop_repeated
  drop_repeated-valid last [] h = refl
  drop_repeated-valid last (x ∷ xs) h = ground (arith, drop_repeated-valid (some x) xs)

  unique_sorted-valid :
      (xs : List InstallationId)
      → valid_predecessors c xs ≡ true
      → valid_predecessors c (unique_sorted xs) ≡ true
  unfolding unique_sorted
  unique_sorted-valid xs h =
      drop_repeated-valid none (sort_strings xs) (ground (arith, sort_strings-valid xs))

  append-valid :
      (x : InstallationId) (xs : List InstallationId)
      → valid_predecessors c (xs ++ (x ∷ []))
        ≡ (valid_predecessors c xs && is_id x && not (same_id x c))
  unfolding valid_predecessors
  append-valid x [] = ground arith
  append-valid x (y ∷ ys) = ground (arith, append-valid x ys)

  -- Predecessors of another installation are those of one that is not among them.
  other-valid :
      (d : InstallationId) (xs : List InstallationId)
      → valid_predecessors d xs ≡ true
      → listed c xs ≡ false
      → valid_predecessors c xs ≡ true
  unfolding valid_predecessors exists_row
  other-valid d [] h k = refl
  other-valid d (x ∷ xs) h k = ground (arith, same_sound x c, same_refl c, other-valid d xs)

module _ (e : FileSystem) (id : InstallationId) (old : Ledger) (d : Disk)
    (loads : decoded_ledger d.stored ≡ ok old) where
  predecessors-valid :
      listed id old.predecessors ≡ false
      → valid_predecessors id (registered e id old).predecessors ≡ true
  unfolding validate_ledger registered
  predecessors-valid k =
      let valid = decoded_ledger-valid d.stored old loads in
      ground (
        arith,
        valid,
        other-valid id old.current old.predecessors,
        append-valid id old.current old.predecessors,
        unique_sorted-valid id old.predecessors,
        unique_sorted-valid id (old.predecessors ++ (old.current ∷ [])),
      )

  registered-valid :
      is_id id ≡ true
      → listed id old.predecessors ≡ false
      → validate_ledger (registered e id old) ≡ ok tt
  unfolding validate_ledger registered
  registered-valid h k = ground (
    arith,
    predecessors-valid k,
    unique_sorted-strict old.predecessors,
    unique_sorted-strict (old.predecessors ++ (old.current ∷ [])),
  )

  writes :
      (l : Ledger)
      → e.is_absolute ≡ true
      → ((c : FileCall) → e.fails c ≡ false)
      → (write_atomic e l d).0 ≡ ok tt
  unfolding write_atomic file_call deferred raise ◌>>=◌ fill_temporary
  writes l abs calls = ground (
    arith,
    calls make_directory,
    calls encode,
    calls create_temporary,
    calls change_mode,
    calls write,
    calls sync,
    calls close,
    calls rename,
  )

  -- Where the ledger at the path can be loaded, the path is absolute and no call fails, Register
  -- accepts a valid ID that is not a predecessor, and returns the ledger that it makes.
  pub register-accepts :
      is_id id ≡ true
      → listed id old.predecessors ≡ false
      → e.is_absolute ≡ true
      → ((c : FileCall) → e.fails c ≡ false)
      → (register e id d).0 ≡ ok (registered e id old)
  unfolding register load_ledger validate_id lift pure ◌>>=◌
  register-accepts h k abs calls =
      ground (arith, registered-valid h k, writes (registered e id old) abs calls)
