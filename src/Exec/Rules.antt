-- ===== src/Exec/Rules.antt =====
-- How an action may move the state, whether it returns or fails: one rule for each way to build it.
use cluster_api_hypervisor.Common.{Bool, true, false, ◌≡◌, refl, if◌then◌else◌}
use cluster_api_hypervisor.Exec.{
  Error, Result, ok, err, Exec, pure, raise, lift, attempt, continue, ◌>>=◌,
}

-- A relation between the states before and after that sequences of steps stay in.
pub record IsPreorder {ℓ} {S : Type ℓ} (R : S → S → Type ℓ) : Type ℓ where
  pub at_rest : (s : S) → R s s
  pub through : (s t u : S) → R s t → R t u → R s u

-- From every state, `m` ends in a state related to it.
pub record Moves {ℓ} {S A : Type ℓ} (R : S → S → Type ℓ) (m : Exec S A) : Type ℓ where
  pub at : (s : S) → R s (m s).1

module _ {ℓ} {S A : Type ℓ} {R : S → S → Type ℓ} (o : IsPreorder R) where
  pub Moves-pure : (a : A) → Moves R (pure a)
  unfolding pure
  Moves-pure a = record { at = o.at_rest }

  pub Moves-raise : (e : Error) → Moves R (raise {A = A} e)
  unfolding raise
  Moves-raise e = record { at = o.at_rest }

  pub Moves-lift : (r : Result A) → Moves R (lift r)
  unfolding lift
  Moves-lift r = record { at = o.at_rest }

module _ {ℓ} {S A : Type ℓ} {R : S → S → Type ℓ} where
  pub Moves-attempt : (m : Exec S A) → Moves R m → Moves R (attempt m)
  unfolding attempt
  Moves-attempt m k = record { at = k.at }

  pub Moves-if : (b : Bool) (m n : Exec S A) → Moves R m → Moves R n → Moves R (if b then m else n)
  Moves-if true m n km kn = km
  Moves-if false m n km kn = kn

  -- The same with what the test says.
  pub Moves-branch :
      (b : Bool) (m n : Exec S A)
      → (b ≡ true → Moves R m)
      → (b ≡ false → Moves R n)
      → Moves R (if b then m else n)
  Moves-branch true m n km kn = km refl
  Moves-branch false m n km kn = kn refl

module _ {ℓ} {S A B : Type ℓ} {R : S → S → Type ℓ} (o : IsPreorder R) where
  Moves-continue :
      (r : Result A) (f : A → Exec S B)
      → ((a : A) → Moves R (f a))
      → (s : S) → R s (continue r f s).1
  Moves-continue (ok a) f kf s = (kf a).at s
  Moves-continue (err e) f kf s = o.at_rest s

  pub Moves-bind :
      (m : Exec S A) (f : A → Exec S B) → Moves R m → ((a : A) → Moves R (f a)) → Moves R (m >>= f)
  unfolding ◌>>=◌
  Moves-bind m f km kf = record {
    at = λ s. let (r, s') = m s in o.through s s' _ (km.at s) (Moves-continue r f kf s');
  }

-- The same where something is known of the values that the first action returns.
pub Moves-bind_where {ℓ} :
    {S A B : Type ℓ} {R : S → S → Type ℓ} (o : IsPreorder R) (Q : A → Type ℓ) (m : Exec S A)
    (f : A → Exec S B)
    → Moves R m
    → ((s : S) (a : A) → (m s).0 ≡ ok a → Q a)
    → ((a : A) → Q a → Moves R (f a))
    → Moves R (m >>= f)
unfolding ◌>>=◌
Moves-bind_where {S = S} {A = A} {R = R} o Q m f km q kf = record {
  at = λ s. let (r, s') = m s in o.through s s' _ (km.at s) (goes r s' (λ a e. q s a e));
}
  where
    goes : (r : Result A) (s : S) → ((a : A) → r ≡ ok a → Q a) → R s (continue r f s).1
    goes (ok a) s h = (kf a (h a refl)).at s
    goes (err e) s h = o.at_rest s

pub ruleset moves_rules = (Moves-pure, Moves-raise, Moves-lift, Moves-attempt, Moves-if, Moves-bind)

-- An action that reads the state first.
pub Moves-reading {ℓ} :
    {S A : Type ℓ} {R : S → S → Type ℓ} (m : S → Exec S A)
    → ((s : S) → Moves R (m s))
    → Moves R (λ s. m s s)
Moves-reading m k = record { at = λ s. (k s).at s }
