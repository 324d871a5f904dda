-- ===== src/Exec/Ends.antt =====
-- What an action leaves behind however it ends: a postcondition for a returned value, and one for an
-- error.
use cluster_api_hypervisor.Common.{Bool, true, false, ◌≡◌, refl, if◌then◌else◌}
use cluster_api_hypervisor.Exec.{Error, Result, ok, err, Exec, pure, raise, continue, ◌>>=◌}

abbrev pub EndsIn {ℓ} : {S A : Type ℓ} → (A → S → Type ℓ) → (S → Type ℓ) → Result A → S → Type ℓ
EndsIn Q E (ok a) s = Q a s
EndsIn Q E (err x) s = E s

pub record Ends {ℓ} {S A : Type ℓ} (P : S → Type ℓ) (m : Exec S A) (Q : A → S → Type ℓ)
    (E : S → Type ℓ) : Type ℓ where
  pub at : (s : S) → P s → EndsIn Q E (m s).0 (m s).1

module _ {ℓ} {S A : Type ℓ} {P : S → Type ℓ} {Q : A → S → Type ℓ} {E : S → Type ℓ} where
  pub Ends-pure : (a : A) → ((s : S) → P s → Q a s) → Ends P (pure a) Q E
  unfolding pure
  Ends-pure a h = record { at = h }

  pub Ends-raise : (x : Error) → ((s : S) → P s → E s) → Ends P (raise x) Q E
  unfolding raise
  Ends-raise x h = record { at = h }

  pub Ends-if :
      (b : Bool) (m n : Exec S A)
      → (b ≡ true → Ends P m Q E)
      → (b ≡ false → Ends P n Q E)
      → Ends P (if b then m else n) Q E
  Ends-if true m n h k = h refl
  Ends-if false m n h k = k refl

  pub Ends-weaken :
      (P' : S → Type ℓ) (m : Exec S A) → ((s : S) → P s → P' s) → Ends P' m Q E → Ends P m Q E
  Ends-weaken P' m h k = record { at = λ s p. k.at s (h s p) }

module _ {ℓ} {S A B : Type ℓ} {Q : B → S → Type ℓ} {E : S → Type ℓ} where
  Ends-continue :
      (M : A → S → Type ℓ) (r : Result A) (f : A → Exec S B) (s : S)
      → EndsIn M E r s
      → ((a : A) → Ends (M a) (f a) Q E)
      → EndsIn Q E (continue r f s).0 (continue r f s).1
  Ends-continue M (ok a) f s h k = (k a).at s h
  Ends-continue M (err x) f s h k = h

  pub Ends-bind :
      {P : S → Type ℓ} (M : A → S → Type ℓ) (m : Exec S A) (f : A → Exec S B)
      → Ends P m M E
      → ((a : A) → Ends (M a) (f a) Q E)
      → Ends P (m >>= f) Q E
  unfolding ◌>>=◌
  Ends-bind M m f h k = record { at = λ s p. Ends-continue M (m s).0 f (m s).1 (h.at s p) k }

-- An error leaves the precondition's consequence; a value may leave anything.
pub Ends-result {ℓ} :
    {S A : Type ℓ} (Q : S → Type ℓ) (r : Result A) (s : S) → EndsIn (λ _. Q) Q r s → Q s
Ends-result Q (ok a) s h = h
Ends-result Q (err x) s h = h
