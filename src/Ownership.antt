-- ===== src/Ownership.antt =====
-- The ownership ledger of internal/agent/ownership/ledger.go: the installations whose objects an
-- agent may touch. A Go string is the list of its bytes. The ledger's file is the state.
pub mod Search
pub mod Sorting
pub mod Laws
pub mod Register
pub mod Accepts
use cluster_api_hypervisor.Common.{
  ℕ, zero, suc, ◌+◌, String, Bool, true, false, not, ◌||◌, ◌&&◌, Option, none, some, List, [], ◌∷◌,
  ◌++◌, ltb, eqb, length, get_elem?, if◌then◌else◌,
}
use cluster_api_hypervisor.Exec.{
  Error, other, Result, ok, err, Exec, pure, raise, lift, attempt, ◌>>=◌, ◌>>◌,
}
use Prim.Native.Nat.{◌/◌}

-- An installation ID, as bytes.
abbrev pub InstallationId : Type 0
InstallationId = List ℕ

-- `a == b` and `a < b` on strings
unfoldable pub same_id : InstallationId → InstallationId → Bool
same_id [] [] = true
same_id (x ∷ xs) (y ∷ ys) = eqb x y && same_id xs ys
same_id _ _ = false

unfoldable pub less : InstallationId → InstallationId → Bool
less xs [] = false
less [] (y ∷ ys) = true
less (x ∷ xs) (y ∷ ys) = ltb x y || eqb x y && less xs ys

pub record Ledger : Type 0 where
  pub current : InstallationId
  pub predecessors : List InstallationId

-- sort.Search: the fuel is what is left of the range at least.
unfoldable pub search : ℕ → (ℕ → Bool) → ℕ → ℕ → ℕ
search zero f i j = i
search (suc fuel) f i j = elim (ltb i j) [
  | false ↦ i
  | true ↦ elim (f ((i + j) / 2)) [
    | true ↦ search fuel f i ((i + j) / 2)
    | false ↦ search fuel f (suc ((i + j) / 2)) j
  ]
]

-- The test of sort.SearchStrings at an index; it is only asked within the slice.
unfoldable pub not_below : List InstallationId → InstallationId → ℕ → Bool
not_below ids id k = elim (get_elem? ids k) [ none ↦ true | some x ↦ not (less x id) ]

-- sort.SearchStrings
unfoldable pub search_strings : List InstallationId → InstallationId → ℕ
search_strings ids id = search (length ids) (not_below ids id) 0 (length ids)

abbrev pub is_at : Option InstallationId → InstallationId → Bool
is_at none id = false
is_at (some x) id = same_id x id

-- Owns
unfoldable pub owns : Ledger → InstallationId → Bool
owns l id =
    if same_id id l.current
    then true
    else ltb (search_strings l.predecessors id) (length l.predecessors)
      && is_at (get_elem? l.predecessors (search_strings l.predecessors id)) id

-- strings.ContainsAny(value, "/\\\r\n\t ")
unfoldable pub contains_any : InstallationId → Bool
contains_any [] = false
contains_any (c ∷ cs) =
    eqb c 47 || eqb c 92 || eqb c 13 || eqb c 10 || eqb c 9 || eqb c 32 || contains_any cs

-- ErrInvalidInstallationID
abbrev pub invalid_installation_id : Error
invalid_installation_id = other "invalid installation ID"

abbrev pub check : Bool → Result (Unit {0})
check good = if good then ok tt else err invalid_installation_id

abbrev pub is_id : InstallationId → Bool
is_id value = not (same_id value [] || ltb 128 (length value) || contains_any value)

-- validateID
unfoldable pub validate_id : InstallationId → Result (Unit {0})
validate_id value = check (is_id value)

-- sort.StringsAreSorted
unfoldable pub are_sorted : List InstallationId → Bool
are_sorted [] = true
are_sorted (x ∷ []) = true
are_sorted (x ∷ y ∷ ys) = not (less y x) && are_sorted (y ∷ ys)

-- No two neighbours are the same.
unfoldable pub no_duplicate : List InstallationId → Bool
no_duplicate [] = true
no_duplicate (x ∷ []) = true
no_duplicate (x ∷ y ∷ ys) = not (same_id x y) && no_duplicate (y ∷ ys)

-- The loop of Validate over the predecessors
unfoldable pub valid_predecessors : InstallationId → List InstallationId → Bool
valid_predecessors current [] = true
valid_predecessors current (p ∷ ps) =
    is_id p && not (same_id p current) && valid_predecessors current ps

-- Ledger.Validate; each refusal wraps the same sentinel.
unfoldable pub validate_ledger : Ledger → Result (Unit {0})
validate_ledger l = check (
    (same_id l.current [] || is_id l.current)
    && valid_predecessors l.current l.predecessors
    && are_sorted l.predecessors
    && no_duplicate l.predecessors)

-- sort.Strings; every order of equal strings is the same list.
unfoldable pub insert_id : InstallationId → List InstallationId → List InstallationId
insert_id x [] = x ∷ []
insert_id x (y ∷ ys) = let rest = insert_id x ys in if less y x then y ∷ rest else x ∷ y ∷ ys

unfoldable pub sort_strings : List InstallationId → List InstallationId
sort_strings [] = []
sort_strings (x ∷ xs) = insert_id x (sort_strings xs)

-- The loop of uniqueSorted, from the last element of the result.
unfoldable pub drop_repeated : Option InstallationId → List InstallationId → List InstallationId
drop_repeated last [] = []
drop_repeated last (x ∷ xs) =
    let rest = drop_repeated (some x) xs in if is_at last x then rest else x ∷ rest

unfoldable pub unique_sorted : List InstallationId → List InstallationId
unique_sorted ids = drop_repeated none (sort_strings ids)

-- What stands at the path of the ledger: nothing, a file that cannot be read or decoded, or the JSON
-- of a ledger. `temporary` is the file .ledger.* that is not yet renamed or removed.
pub data Stored : Type 0 where
  missing unreadable malformed : Stored
  holds : Ledger → Stored

pub record Disk : Type 0 where
  pub stored : Stored
  pub temporary : Option (Option Ledger)

-- The calls of writeAtomic that may fail.
pub data FileCall : Type 0 where
  make_directory encode create_temporary change_mode write sync close rename remove : FileCall

-- Whether the path is absolute, and which calls fail.
pub record FileSystem : Type 0 where
  pub is_absolute : Bool
  pub fails : FileCall → Bool

unfoldable pub decoded_ledger : Stored → Result Ledger
decoded_ledger missing = ok (record { current = []; predecessors = [] })
decoded_ledger unreadable = err (other "read ownership ledger")
decoded_ledger malformed = err (other "decode ownership ledger")
decoded_ledger (holds l) = elim (validate_ledger l) [ ok _ ↦ ok l | err e ↦ err e ]

-- Load; the ledger of a missing file is not validated, and is valid.
unfoldable pub load_ledger : Exec Disk Ledger
load_ledger d = (decoded_ledger d.stored, d)

module _ (e : FileSystem) where
  -- A call that fails, or does its work.
  unfoldable pub file_call : FileCall → (Disk → Disk) → Exec Disk (Unit {0})
  file_call c work d =
      if e.fails c then (err (other "ownership ledger directory"), d) else (ok tt, work d)

  abbrev keep : Disk → Disk
  keep d = d

  abbrev put_temporary : Option (Option Ledger) → Disk → Disk
  put_temporary t d = record { stored = d.stored; temporary = t }

  abbrev renamed : Ledger → Disk → Disk
  renamed l d = record { stored = holds l; temporary = none }

  abbrev removed : Disk → Disk
  removed d = if e.fails remove then d else record { stored = d.stored; temporary = none }

  -- From Chmod to Rename
  unfoldable pub fill_temporary : Ledger → Exec Disk (Unit {0})
  fill_temporary l =
      file_call change_mode keep
      >> file_call write (put_temporary (some (some l)))
      >> file_call sync keep
      >> file_call close keep
      >> file_call rename (renamed l)

  -- `defer os.Remove`: its error is dropped.
  unfoldable pub deferred : Exec Disk (Unit {0}) → Exec Disk (Unit {0})
  deferred m d = let (r, d') = m d in (r, removed d')

  unfoldable pub write_atomic : Ledger → Exec Disk (Unit {0})
  write_atomic l =
      if not e.is_absolute
      then raise (other "ownership ledger path must be absolute")
      else file_call make_directory keep
        >> file_call encode keep
        >> file_call create_temporary (put_temporary (some none))
        >> deferred (fill_temporary l)

  unfoldable pub registered : InstallationId → Ledger → Ledger
  registered current l = record {
    current = current;
    predecessors = unique_sorted (
        if not (same_id l.current []) && not (same_id l.current current)
        then l.predecessors ++ (l.current ∷ [])
        else l.predecessors);
  }

  -- Register
  unfoldable pub register : InstallationId → Exec Disk Ledger
  register current = do
    lift (validate_id current)
    ledger ← load_ledger
    lift (validate_ledger (registered current ledger))
    write_atomic (registered current ledger)
    pure (registered current ledger)
