-- ===== src/Ownership/Sorting.antt =====
-- The order of strings, what a sorted slice of them is, and what sorting and dropping repeated
-- elements keep.
use cluster_api_hypervisor.Common.{
  ℕ, zero, suc, Bool, true, false, ◌||◌, ◌≡◌, refl, Option, none, some, List, [], ◌∷◌, ◌++◌, arith,
  exists_row,
}
use cluster_api_hypervisor.Ownership.{
  InstallationId, same_id, less, not_below, are_sorted, insert_id, sort_strings, drop_repeated,
  unique_sorted,
}
use cluster_api_hypervisor.Ownership.Search.{IsUpward}

pub same_refl : (x : InstallationId) → same_id x x ≡ true
unfolding same_id
same_refl [] = refl
same_refl (x ∷ xs) = ground (arith, same_refl xs)

pub same_sound : (x y : InstallationId) → same_id x y ≡ true → x ≡ y
unfolding same_id
same_sound [] [] h = refl
same_sound [] (y ∷ ys) h = absurd (cc)
same_sound (x ∷ xs) [] h = absurd (cc)
same_sound (x ∷ xs) (y ∷ ys) h = ground (arith, same_sound xs ys)

pub less_irrefl : (x : InstallationId) → less x x ≡ false
unfolding less
less_irrefl [] = refl
less_irrefl (x ∷ xs) = ground (arith, less_irrefl xs)

pub less_antisym : (x y : InstallationId) → less x y ≡ false → less y x ≡ false → same_id x y ≡ true
unfolding less same_id
less_antisym [] [] h k = refl
less_antisym [] (y ∷ ys) h k = absurd (cc)
less_antisym (x ∷ xs) [] h k = absurd (cc)
less_antisym (x ∷ xs) (y ∷ ys) h k = ground (arith, less_antisym xs ys)

pub not_less_trans :
    (x y z : InstallationId) → less y x ≡ false → less z y ≡ false → less z x ≡ false
unfolding less
not_less_trans [] y z h k = refl
not_less_trans (x ∷ xs) [] z h k = absurd (cc)
not_less_trans (x ∷ xs) (y ∷ ys) [] h k = absurd (cc)
not_less_trans (x ∷ xs) (y ∷ ys) (z ∷ zs) h k = ground (arith, not_less_trans xs ys zs)

module _ (id : InstallationId) where
  from_first :
      (x : InstallationId) (xs : List InstallationId)
      → are_sorted (x ∷ xs) ≡ true
      → less x id ≡ false
      → (m : ℕ) → not_below (x ∷ xs) id m ≡ true
  unfolding are_sorted not_below
  from_first x xs h k zero = ground arith
  from_first x [] h k (suc m) = refl
  from_first x (y ∷ ys) h k (suc m) =
      from_first y ys (ground arith) (not_less_trans id x y k (ground arith)) m

  -- On a sorted slice, what is not below an ID is followed by IDs that are not below it.
  pub not_below-IsUpward :
      (ids : List InstallationId) → are_sorted ids ≡ true → IsUpward (not_below ids id)
  unfolding are_sorted not_below
  not_below-IsUpward [] h k m p e = refl
  not_below-IsUpward (x ∷ xs) h zero m p e = from_first x xs h (ground arith) m
  not_below-IsUpward (x ∷ xs) h (suc k) zero p e = absurd (omega arith)
  not_below-IsUpward (x ∷ []) h (suc k) (suc m) p e = refl
  not_below-IsUpward (x ∷ y ∷ ys) h (suc k) (suc m) p e =
      not_below-IsUpward (y ∷ ys) (ground arith) k m (omega arith) e

-- An ID is one of a slice.
abbrev pub listed : InstallationId → List InstallationId → Bool
listed id ids = exists_row (λ x. same_id id x) ids

pub listed-append :
    (id x : InstallationId) (xs : List InstallationId)
    → listed id (xs ++ (x ∷ [])) ≡ (listed id xs || same_id id x)
unfolding exists_row
listed-append id x [] = ground arith
listed-append id x (y ∷ ys) = ground (arith, listed-append id x ys)

listed-insert_id :
    (id x : InstallationId) (xs : List InstallationId)
    → listed id (insert_id x xs) ≡ (same_id id x || listed id xs)
unfolding exists_row insert_id
listed-insert_id id x [] = refl
listed-insert_id id x (y ∷ ys) = ground (arith, listed-insert_id id x ys)

listed-sort_strings :
    (id : InstallationId) (xs : List InstallationId) → listed id (sort_strings xs) ≡ listed id xs
unfolding exists_row sort_strings
listed-sort_strings id [] = refl
listed-sort_strings id (x ∷ xs) =
    ground (arith, listed-insert_id id x (sort_strings xs), listed-sort_strings id xs)

abbrev or_last : InstallationId → Option InstallationId → Bool
or_last id none = false
or_last id (some x) = same_id id x

listed-drop_repeated :
    (id : InstallationId) (last : Option InstallationId) (xs : List InstallationId)
    → (or_last id last || listed id (drop_repeated last xs)) ≡ (or_last id last || listed id xs)
unfolding exists_row drop_repeated
listed-drop_repeated id last [] = refl
listed-drop_repeated id none (x ∷ xs) = ground (arith, listed-drop_repeated id (some x) xs)
listed-drop_repeated id (some y) (x ∷ xs) =
    ground (arith, same_sound y x, listed-drop_repeated id (some x) xs)

-- Sorting and dropping repeated elements keeps what is listed.
pub listed-unique_sorted :
    (id : InstallationId) (xs : List InstallationId) → listed id (unique_sorted xs) ≡ listed id xs
unfolding unique_sorted
listed-unique_sorted id xs =
    ground (arith, listed-drop_repeated id none (sort_strings xs), listed-sort_strings id xs)
