-- ===== src/Ownership/Search.antt =====
-- sort.Search finds the border of a test that stays true once it is true.
use cluster_api_hypervisor.Common.{
  ℕ, zero, suc, ◌+◌, ◌≤◌, ◌<◌, Bool, true, false, ◌≡◌, refl, arith, ltb, Bool-cases, inl, inr, ◌⊎◌,
  subst,
}
use cluster_api_hypervisor.Ownership.{search}
use Prim.Native.Nat.{◌/◌}
use native.Mathlib.Decide.{dec_lt}

-- A test that stays true.
abbrev pub IsUpward : (ℕ → Bool) → Type 0
IsUpward f = (k m : ℕ) → k ≤ m → f k ≡ true → f m ≡ true

-- The first index of a range at which the test holds, or the end of the range.
pub record IsBorder (f : ℕ → Bool) (i j r : ℕ) : Type 0 where
  pub low : i ≤ r
  pub high : r ≤ j
  pub below : (k : ℕ) → i ≤ k → k < r → f k ≡ false
  pub above : (k : ℕ) → r ≤ k → k < j → f k ≡ true

module _ (f : ℕ → Bool) (up : IsUpward f) where
  lower-IsBorder : (i h j r : ℕ) → h < j → f h ≡ true → IsBorder f i h r → IsBorder f i j r
  lower-IsBorder i h j r less e b = record {
    low = b.low;
    high = grind (arith, b.high);
    below = b.below;
    above = λ k p q. up r k p (at_border (dec_lt r h));
  }
    where
      at_border : Dec (r < h) → f r ≡ true
      at_border (yes p) = b.above r (omega arith) p
      at_border (no p) = subst (λ x. f x ≡ true) (the_end p) e
        where
          the_end : ¬ (r < h) → h ≡ r
          the_end p = grind (arith, b.high)

  upper-IsBorder : (i h j r : ℕ) → i ≤ h → f h ≡ false → IsBorder f (suc h) j r → IsBorder f i j r
  upper-IsBorder i h j r p e b = record {
    low = grind (arith, b.low);
    high = b.high;
    below = λ k q s. before k q s (dec_lt h k);
    above = b.above;
  }
    where
      before : (k : ℕ) → i ≤ k → k < r → Dec (h < k) → f k ≡ false
      before k q s (yes x) = b.below k x s
      before k q s (no x) = is_false (Bool-cases (f k))
        where
          is_false : (f k ≡ true) ⊎ (f k ≡ false) → f k ≡ false
          is_false (inl y) = absurd (cc (up k h (omega arith) y))
          is_false (inr y) = y

  halve :
      (fuel i j : ℕ) (b c : Bool)
      → ltb i j ≡ b
      → f ((i + j) / 2) ≡ c
      → i ≤ j
      → (i < j → IsBorder f i ((i + j) / 2) (search fuel f i ((i + j) / 2)))
      → (i < j → IsBorder f (suc ((i + j) / 2)) j (search fuel f (suc ((i + j) / 2)) j))
      → IsBorder f i j (elim b [
        | false ↦ i
        | true ↦ elim c [
          | true ↦ search fuel f i ((i + j) / 2)
          | false ↦ search fuel f (suc ((i + j) / 2)) j
        ]
      ])
  halve fuel i j false c e g p lower upper = record {
    low = omega arith;
    high = p;
    below = λ k q s. absurd (omega arith);
    above = λ k q s. absurd (ground arith);
  }
  halve fuel i j true true e g p lower upper =
      lower-IsBorder i _ j _ (ground arith) g (lower (ground arith))
  halve fuel i j true false e g p lower upper =
      upper-IsBorder i _ j _ (omega arith) g (upper (ground arith))

  -- With fuel for the length of the range, sort.Search ends at the border.
  pub search-IsBorder : (fuel i j : ℕ) → i ≤ j → j ≤ i + fuel → IsBorder f i j (search fuel f i j)
  unfolding search
  search-IsBorder zero i j h k = record {
    low = omega arith;
    high = omega arith;
    below = λ m a b. absurd (omega arith);
    above = λ m a b. absurd (omega arith);
  }
  search-IsBorder (suc fuel) i j h k =
      halve fuel i j (ltb i j) (f ((i + j) / 2)) refl refl h
        (λ p. search-IsBorder fuel i ((i + j) / 2) (omega arith) (omega arith))
        (λ p. search-IsBorder fuel (suc ((i + j) / 2)) j (omega arith) (omega arith))
