-- ===== src/Ownership/Laws.antt =====
-- What Owns and Register of internal/agent/ownership/ledger.go answer and leave on the disk.
use cluster_api_hypervisor.Common.{
  ℕ, zero, suc, ◌≤◌, ◌<◌, true, not, ◌&&◌, ◌||◌, ◌≡◌, refl, inl, inr, Option, none, some, List, [],
  ◌∷◌, arith, ltb, length, get_elem?, exists_row, Bool-cases,
}
use cluster_api_hypervisor.Exec.{ok}
use cluster_api_hypervisor.Ownership.{
  InstallationId, Ledger, same_id, less, not_below, are_sorted, search_strings, is_at, owns,
  validate_ledger,
}
use cluster_api_hypervisor.Ownership.Search.{IsBorder, search-IsBorder}
use cluster_api_hypervisor.Ownership.Sorting.{
  same_refl, same_sound, less_irrefl, less_antisym, not_below-IsUpward, listed,
}

-- Where a slice has an ID.
abbrev Place : InstallationId → List InstallationId → Type 0
Place id ids = (k : ℕ) × (k < length ids) × (get_elem? ids k ≡ some id)

further : (id x : InstallationId) (xs : List InstallationId) → Place id xs → Place id (x ∷ xs)
further id x xs (k, p, e) = (suc k, omega arith, e)

listed-Place :
    (id : InstallationId) (ids : List InstallationId) → listed id ids ≡ true → Place id ids
unfolding exists_row
listed-Place id [] h = absurd (cc)
listed-Place id (x ∷ xs) h = elim (Bool-cases (same_id id x)) [
  | inl e ↦ (0, omega arith, cc (same_sound id x e))
  | inr e ↦ further id x xs (listed-Place id xs (ground arith))
]

at-listed :
    (id : InstallationId) (ids : List InstallationId) (k : ℕ)
    → is_at (get_elem? ids k) id ≡ true
    → listed id ids ≡ true
unfolding exists_row
at-listed id [] k h = absurd (cc)
at-listed id (x ∷ xs) zero h = ground (arith, same_sound x id h, same_refl id)
at-listed id (x ∷ xs) (suc k) h = ground (arith, at-listed id xs k h)

search_strings-IsBorder :
    (id : InstallationId) (ids : List InstallationId)
    → are_sorted ids ≡ true
    → IsBorder (not_below ids id) 0 (length ids) (search_strings ids id)
unfolding search_strings
search_strings-IsBorder id ids h =
    search-IsBorder (not_below ids id) (not_below-IsUpward id ids h) (length ids) 0 (length ids)
      (omega arith) (omega arith)

not_below_at :
    (id x : InstallationId) (ids : List InstallationId) (k : ℕ)
    → get_elem? ids k ≡ some x
    → not_below ids id k ≡ not (less x id)
unfolding not_below
not_below_at id x ids k e = ground arith

past_end : (ids : List InstallationId) (r : ℕ) → get_elem? ids r ≡ none → length ids ≤ r
past_end [] r h = omega arith
past_end (x ∷ xs) zero h = absurd (cc)
past_end (x ∷ xs) (suc r) h = ground (arith, past_end xs r)

-- At its first index that is not below an ID, a sorted slice that lists the ID has it.
module _ (id : InstallationId) (ids : List InstallationId) (r : ℕ) (h : are_sorted ids ≡ true)
    (b : IsBorder (not_below ids id) 0 (length ids) r) where
  border_first : (k : ℕ) → get_elem? ids k ≡ some id → r ≤ k
  border_first k e = grind (arith, b.below k, not_below_at id id ids k e, less_irrefl id)

  border_same :
      (k : ℕ) (o : Option InstallationId)
      → k < length ids
      → get_elem? ids k ≡ some id
      → get_elem? ids r ≡ o
      → is_at o id ≡ true
  border_same k none p e f = absurd (grind (arith, past_end ids r f, border_first k e))
  border_same k (some y) p e f = ground (
    arith,
    same_sound y id,
    same_refl id,
    border_first k e,
    b.above r,
    not_below_at id y ids r f,
    not_below_at y y ids r f,
    not_below_at y id ids k e,
    not_below-IsUpward y ids h r k,
    less_irrefl y,
    less_antisym y id,
  )

  border_listed : listed id ids ≡ (ltb r (length ids) && is_at (get_elem? ids r) id)
  border_listed = elim (Bool-cases (listed id ids)) [
    | inl e ↦ found e (listed-Place id ids e)
    | inr e ↦ ground (arith, at-listed id ids r)
  ]
    where
      found :
          listed id ids ≡ true
          → Place id ids
          → listed id ids ≡ (ltb r (length ids) && is_at (get_elem? ids r) id)
      found e (k, p, g) = ground (arith, border_first k g, border_same k (get_elem? ids r) p g refl)

-- On a ledger that passes Validate, the binary search of Owns finds exactly the current installation
-- and the listed predecessors.
pub owns-listed :
    (l : Ledger) (id : InstallationId)
    → validate_ledger l ≡ ok tt
    → owns l id ≡ (same_id id l.current || listed id l.predecessors)
unfolding validate_ledger owns
owns-listed l id h =
    let sorted : are_sorted l.predecessors ≡ true = ground arith in
    ground (
      arith,
      border_listed id l.predecessors (search_strings l.predecessors id) sorted
          (search_strings-IsBorder id l.predecessors sorted),
    )
