-- ===== src/Common/Rows.antt =====
-- A SQL table as the list of its rows, in the order of insertion: what `WHERE`, `UPDATE` and
-- `DELETE` do to it.
use Prim.Native.Nat.{ℕ, suc, ◌+◌, ◌≤◌}
use mathlib.Core.Path.{◌≡◌, refl}
use mathlib.Core.Logic.{inl, inr}
use mathlib.Core.Bool.{Bool, true, false, ◌||◌}
use mathlib.Core.Option.{Option, none, some}
use mathlib.Core.List.{List, [], ◌∷◌, ◌++◌}
use native.Mathlib.Omega.{arith}
use cluster_api_hypervisor.Common.Tests.{if◌then◌else◌, Bool-cases}

module _ {ℓ} {R : Type ℓ} where
  -- SELECT ... WHERE p, one row
  unfoldable pub find : (R → Bool) → List R → Option R
  find p [] = none
  find p (r ∷ rs) = let rest = find p rs in if p r then some r else rest

  unfoldable pub exists_row : (R → Bool) → List R → Bool
  exists_row p [] = false
  exists_row p (r ∷ rs) = p r || exists_row p rs

  -- SELECT ... WHERE p, every row
  unfoldable pub select : (R → Bool) → List R → List R
  select p [] = []
  select p (r ∷ rs) = let rest = select p rs in if p r then r ∷ rest else rest

  -- UPDATE ... WHERE p
  unfoldable pub update : (R → Bool) → (R → R) → List R → List R
  update p f [] = []
  update p f (r ∷ rs) = (if p r then f r else r) ∷ update p f rs

  -- DELETE ... WHERE p
  unfoldable pub delete : (R → Bool) → List R → List R
  delete p [] = []
  delete p (r ∷ rs) = let rest = delete p rs in if p r then rest else r ∷ rest

  -- the rows that an `UPDATE ... WHERE p` affects
  unfoldable pub affected : (R → Bool) → List R → ℕ
  affected p [] = 0
  affected p (r ∷ rs) = let rest = affected p rs in if p r then suc rest else rest

  abbrev pub when : (R → Bool) → (R → R) → R → R
  when p f r = if p r then f r else r

  abbrev pub map_option : (R → R) → Option R → Option R
  map_option f none = none
  map_option f (some r) = some (f r)

  -- A row that a search finds satisfies the test.
  pub find_sound : (p : R → Bool) (rs : List R) (r : R) → find p rs ≡ some r → p r ≡ true
  unfolding find
  find_sound p [] r h = ground arith
  find_sound p (x ∷ rs) r h = ground (arith, find_sound p rs r)

  pub find-none_of_exists :
      (p : R → Bool) (rs : List R) → exists_row p rs ≡ false → find p rs ≡ none
  unfolding find exists_row
  find-none_of_exists p [] h = refl
  find-none_of_exists p (x ∷ rs) h = ground (arith, find-none_of_exists p rs)

  pub find_of_exists :
      (p : R → Bool) (rs : List R) → exists_row p rs ≡ true → (r : R) × (find p rs ≡ some r)
  unfolding find exists_row
  find_of_exists p [] h = ground arith
  find_of_exists p (x ∷ rs) h = elim (Bool-cases (p x)) [
    | inl yes' ↦ (x, ground arith)
    | inr no' ↦ let (r, e) = find_of_exists p rs (ground arith) in (r, ground arith)
  ]

  pub exists_row_of_find :
      (p : R → Bool) (rs : List R) (r : R) → find p rs ≡ some r → exists_row p rs ≡ true
  unfolding find exists_row
  exists_row_of_find p [] r h = ground arith
  exists_row_of_find p (x ∷ rs) r h = ground (arith, exists_row_of_find p rs r)

  pub exists_row-none : (p : R → Bool) (rs : List R) → find p rs ≡ none → exists_row p rs ≡ false
  unfolding find exists_row
  exists_row-none p [] h = refl
  exists_row-none p (x ∷ rs) h = ground (arith, exists_row-none p rs)

  pub find-append_some :
      (p : R → Bool) (rs ss : List R) (r : R) → find p rs ≡ some r → find p (rs ++ ss) ≡ some r
  unfolding find
  find-append_some p [] ss r h = ground arith
  find-append_some p (x ∷ rs) ss r h = ground (arith, find-append_some p rs ss r)

  pub find-append_none :
      (p : R → Bool) (rs ss : List R) → find p rs ≡ none → find p (rs ++ ss) ≡ find p ss
  unfolding find
  find-append_none p [] ss h = refl
  find-append_none p (x ∷ rs) ss h = ground (arith, find-append_none p rs ss)

  -- An update that leaves a test's columns alone acts on the row that the test finds.
  pub find-update :
      (p q : R → Bool) (f : R → R) (rs : List R)
      → ((r : R) → p (f r) ≡ p r)
      → find p (update q f rs) ≡ map_option (when q f) (find p rs)
  unfolding find update
  find-update p q f [] same = refl
  find-update p q f (r ∷ rs) same = ground (arith, same r, find-update p q f rs same)

  -- Deleting other rows leaves what a test finds.
  pub find-delete_ne :
      (p q : R → Bool) (rs : List R)
      → ((r : R) → p r ≡ true → q r ≡ false)
      → find p (delete q rs) ≡ find p rs
  unfolding find delete
  find-delete_ne p q [] other = refl
  find-delete_ne p q (r ∷ rs) other = ground (arith, other r, find-delete_ne p q rs other)

  pub find-delete_self : (p : R → Bool) (rs : List R) → find p (delete p rs) ≡ none
  unfolding find delete
  find-delete_self p [] = refl
  find-delete_self p (r ∷ rs) = ground (arith, find-delete_self p rs)

  -- A stronger test selects no more rows.
  pub affected_mono :
      (p q : R → Bool) (rs : List R)
      → ((r : R) → q r ≡ true → p r ≡ true)
      → affected q rs ≤ affected p rs
  unfolding affected
  affected_mono p q [] sub = omega arith
  affected_mono p q (r ∷ rs) sub = ground (arith, sub r, affected_mono p q rs sub)

  -- Where one row at most passes `p`, and the one that is found passes `q`, `q` selects one row.
  pub affected-one :
      (p q : R → Bool) (rs : List R) (r : R)
      → ((x : R) → q x ≡ true → p x ≡ true)
      → affected p rs ≤ 1
      → find p rs ≡ some r
      → q r ≡ true
      → affected q rs ≡ 1
  unfolding affected find
  affected-one p q [] r sub few found h = ground arith
  affected-one p q (x ∷ rs) r sub few found h =
      ground (arith, sub x, affected_mono p q rs sub, affected-one p q rs r sub)

  pub affected-append :
      (p : R → Bool) (rs ss : List R) → affected p (rs ++ ss) ≡ affected p rs + affected p ss
  unfolding affected
  affected-append p [] ss = omega arith
  affected-append p (r ∷ rs) ss = ground (arith, affected-append p rs ss)

  -- An update that leaves a test's columns alone leaves the number of rows that pass it.
  pub affected-update :
      (p q : R → Bool) (f : R → R) (rs : List R)
      → ((r : R) → p (f r) ≡ p r)
      → affected p (update q f rs) ≡ affected p rs
  unfolding affected update
  affected-update p q f [] same = refl
  affected-update p q f (r ∷ rs) same = ground (arith, same r, affected-update p q f rs same)

  pub affected-none_of_exists :
      (p : R → Bool) (rs : List R) → exists_row p rs ≡ false → affected p rs ≡ 0
  unfolding affected exists_row
  affected-none_of_exists p [] h = refl
  affected-none_of_exists p (r ∷ rs) h = ground (arith, affected-none_of_exists p rs)
