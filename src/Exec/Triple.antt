-- ===== src/Exec/Triple.antt =====
-- What an action that returns a value leaves behind: preconditions and postconditions, with one
-- rule for each way to build an action. Nothing is said of a run that ends in an error.
use cluster_api_hypervisor.Common.{Bool, true, false, ◌≡◌, refl, subst, if◌then◌else◌}
use cluster_api_hypervisor.Exec.{
  Error, Result, ok, err, Exec, pure, raise, lift, attempt, continue, ◌>>=◌,
}

pub record Triple {ℓ} {S A : Type ℓ} (P : S → Type ℓ) (m : Exec S A) (Q : A → S → Type ℓ)
    : Type ℓ where
  pub at : (s : S) → P s → (a : A) → (m s).0 ≡ ok a → Q a (m s).1

-- A statement about the value, if there is one.
abbrev pub OnOk {ℓ} : {S A : Type ℓ} → (A → S → Type ℓ) → Result A → S → Type ℓ
OnOk Q (ok a) s = Q a s
OnOk Q (err e) s = Unit

module _ {ℓ} {S A : Type ℓ} {P : S → Type ℓ} {Q : A → S → Type ℓ} where
  pub Triple-pure : (a : A) → ((s : S) → P s → Q a s) → Triple P (pure a) Q
  unfolding pure
  Triple-pure a h = record { at = λ s p b e. subst (λ x. OnOk Q x s) e (h s p) }

  pub Triple-raise : (e : Error) → Triple P (raise e) Q
  unfolding raise
  Triple-raise e = record { at = λ s p b x. absurd (cc) }

  pub Triple-lift :
      (r : Result A) → ((a : A) → r ≡ ok a → (s : S) → P s → Q a s) → Triple P (lift r) Q
  unfolding lift
  Triple-lift r h = record { at = λ s p a e. h a e s p }

  pub Triple-if :
      (b : Bool) (m n : Exec S A)
      → (b ≡ true → Triple P m Q)
      → (b ≡ false → Triple P n Q)
      → Triple P (if b then m else n) Q
  Triple-if true m n h k = h refl
  Triple-if false m n h k = k refl

  pub Triple-weaken :
      (P' : S → Type ℓ) (m : Exec S A) → ((s : S) → P s → P' s) → Triple P' m Q → Triple P m Q
  Triple-weaken P' m h k = record { at = λ s p a e. k.at s (h s p) a e }

-- Nothing is said of what an action leaves.
pub Triple-any {ℓ} : {S A : Type ℓ} {P : S → Type ℓ} (m : Exec S A) → Triple P m (λ _ _. Unit)
Triple-any m = record { at = λ _ _ _ _. tt }

attempt_cases {ℓ} :
    {S A : Type ℓ} (Q : A → S → Type ℓ) (r : Result A) (s : S)
    → ((a : A) → r ≡ ok a → Q a s)
    → OnOk Q r s
attempt_cases Q (ok a) s h = h a refl
attempt_cases Q (err e) s h = tt

module _ {ℓ} {S A : Type ℓ} {P : S → Type ℓ} {Q : A → S → Type ℓ} where
  pub Triple-attempt : (m : Exec S A) → Triple P m Q → Triple P (attempt m) (λ r s. OnOk Q r s)
  unfolding attempt
  Triple-attempt m k = record {
    at = λ s p r e.
        subst (λ x. OnOk (λ y s'. OnOk Q y s') x (m s).1) e
          (attempt_cases Q (m s).0 (m s).1 (λ a h. k.at s p a h));
  }

module _ {ℓ} {S A B : Type ℓ} {Q : B → S → Type ℓ} where
  Triple-continue :
      (R : A → S → Type ℓ) (r : Result A) (f : A → Exec S B) (s : S)
      → ((a : A) → r ≡ ok a → R a s)
      → ((a : A) → Triple (R a) (f a) Q)
      → (b : B) → (continue r f s).0 ≡ ok b
      → Q b (continue r f s).1
  Triple-continue R (ok a) f s h k b e = (k a).at s (h a refl) b e
  Triple-continue R (err x) f s h k b e = absurd (cc)

module _ {ℓ} {S A B : Type ℓ} {P : S → Type ℓ} {Q : B → S → Type ℓ} where
  pub Triple-bind :
      (R : A → S → Type ℓ) (m : Exec S A) (f : A → Exec S B)
      → Triple P m R
      → ((a : A) → Triple (R a) (f a) Q)
      → Triple P (m >>= f) Q
  unfolding ◌>>=◌
  Triple-bind R m f h k = record {
    at = λ s p b e. Triple-continue R (m s).0 f (m s).1 (λ a x. h.at s p a x) k b e;
  }

-- A fact that does not speak of the state.
pub Triple-given {ℓ} :
    {S A F : Type ℓ} {P : S → Type ℓ} {Q : A → S → Type ℓ} (m : Exec S A)
    → (F → Triple P m Q)
    → Triple (λ s. F × P s) m Q
Triple-given m k = record { at = λ s p a e. (k p.0).at s p.1 a e }

-- An action that reads the state first.
pub Triple-reading {ℓ} :
    {S A : Type ℓ} {P : S → Type ℓ} {Q : A → S → Type ℓ} (m : S → Exec S A)
    → ((s : S) → Triple P (m s) Q)
    → Triple P (λ s. m s s) Q
Triple-reading m k = record { at = λ s p a e. (k s).at s p a e }

-- Two statements about one action.
pub Triple-both {ℓ} :
    {S A : Type ℓ} {P P' : S → Type ℓ} {Q Q' : A → S → Type ℓ} (m : Exec S A)
    → Triple P m Q
    → Triple P' m Q'
    → Triple (λ s. P s × P' s) m (λ a s. Q a s × Q' a s)
Triple-both m h k = record { at = λ s p a e. (h.at s p.0 a e, k.at s p.1 a e) }
