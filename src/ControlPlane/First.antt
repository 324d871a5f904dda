-- ===== src/ControlPlane/First.antt =====
-- firstControlPlaneMachine of controllers/hypervisorcontrolplane_controller.go finds the Machine of the
-- least name.
use Prim.Native.Nat.{compare as compare_ℕ, Ordering}
use Prim.Native.Char.{Char, code}
use Prim.Native.String.compare
use Prim.Native.String.{compare, then as first_unequal}
use text.Mathlib.Text.{is_lt}
use cluster_api_hypervisor.Common.{
  ℕ, zero, suc, String, Bool, true, false, ◌≡◌, refl, subst, some, List, [], ◌∷◌, arith, get_elem?,
  if◌then◌else◌,
}
use cluster_api_hypervisor.ControlPlane.{Machine}
use cluster_api_hypervisor.ControlPlane.Readiness.{first_of, first_machine}

-- The clauses of the order of texts.
cons_cons :
    (c d : Char) (s t : String)
    → compare (String.◌∷◌ c s) (String.◌∷◌ d t)
      ≡ first_unequal (compare_ℕ (code c) (code d)) (compare s t)
cons_cons c d s t = compare.cons-cons c d s t

nil_cons : (d : Char) (t : String) → compare String.[] (String.◌∷◌ d t) ≡ Ordering.lt
nil_cons d t = compare.nil-cons d t

cons_nil : (c : Char) (s : String) → compare (String.◌∷◌ c s) String.[] ≡ Ordering.gt
cons_nil c s = compare.cons-nil c s

nil_nil : compare String.[] String.[] ≡ Ordering.eq
nil_nil = compare.nil-nil

before_asym : (s t : String) → is_lt (compare s t) ≡ true → is_lt (compare t s) ≡ false
before_asym String.[] String.[] h = ground (arith, nil_nil)
before_asym String.[] (String.◌∷◌ d t) h = ground (arith, cons_nil d t)
before_asym (String.◌∷◌ c s) String.[] h = absurd (ground (arith, cons_nil c s))
before_asym (String.◌∷◌ c s) (String.◌∷◌ d t) h =
    ground (arith, cons_cons c d s t, cons_cons d c t s, before_asym s t)

below_nothing : (s : String) → is_lt (compare s String.[]) ≡ false
below_nothing String.[] = ground (arith, nil_nil)
below_nothing (String.◌∷◌ c s) = ground (arith, cons_nil c s)

not_before_trans :
    (s t u : String)
    → is_lt (compare s t) ≡ false
    → is_lt (compare t u) ≡ false
    → is_lt (compare s u) ≡ false
not_before_trans s t String.[] h k = below_nothing s
not_before_trans s String.[] (String.◌∷◌ e u) h k = absurd (ground (arith, nil_cons e u))
not_before_trans String.[] (String.◌∷◌ d t) (String.◌∷◌ e u) h k =
    absurd (ground (arith, nil_cons d t))
not_before_trans (String.◌∷◌ c s) (String.◌∷◌ d t) (String.◌∷◌ e u) h k =
    ground (arith, cons_cons c d s t, cons_cons d e t u, cons_cons c e s u, not_before_trans s t u)

-- No name comes before that of the first, which is one of the Machines.
pub record IsFirst (m : Machine) (ms : List Machine) : Type 0 where
  pub place : ℕ
  pub listed : get_elem? ms place ≡ some m
  pub least :
      (i : ℕ) (x : Machine) → get_elem? ms i ≡ some x → is_lt (compare x.name m.name) ≡ false

alone : (m : Machine) → IsFirst m (m ∷ [])
alone m = record { place = 0; listed = refl; least = λ i x e. cases i x e }
  where
    cases :
        (i : ℕ) (x : Machine)
        → get_elem? (m ∷ []) i ≡ some x
        → is_lt (compare x.name m.name) ≡ false
    cases zero x e = ground (arith, before_asym m.name m.name)
    cases (suc i) x e = absurd (cc)

-- A Machine whose name is not before that of the first may be put in front.
in_front :
    (m b : Machine) (ms : List Machine)
    → is_lt (compare b.name m.name) ≡ false
    → IsFirst m ms
    → IsFirst m (b ∷ ms)
in_front m b ms k h = record {
  place = suc h.place;
  listed = h.listed;
  least = λ i x e. cases i x e;
}
  where
    cases :
        (i : ℕ) (x : Machine)
        → get_elem? (b ∷ ms) i ≡ some x
        → is_lt (compare x.name m.name) ≡ false
    cases zero x e = ground (arith, k)
    cases (suc i) x e = h.least i x e

swap_place : ℕ → ℕ
swap_place zero = 1
swap_place (suc zero) = 0
swap_place (suc (suc i)) = suc (suc i)

swap_listed :
    (a b : Machine) (ms : List Machine) (i : ℕ) (x : Machine)
    → get_elem? (a ∷ b ∷ ms) i ≡ some x
    → get_elem? (b ∷ a ∷ ms) (swap_place i) ≡ some x
unfolding swap_place
swap_listed a b ms zero x h = h
swap_listed a b ms (suc zero) x h = h
swap_listed a b ms (suc (suc i)) x h = h

swapped : (m a b : Machine) (ms : List Machine) → IsFirst m (a ∷ b ∷ ms) → IsFirst m (b ∷ a ∷ ms)
swapped m a b ms h = record {
  place = swap_place h.place;
  listed = swap_listed a b ms h.place m h.listed;
  least = λ i x e. h.least (swap_place i) x (swap_listed b a ms i x e);
}

first_of-IsFirst : (b : Machine) (ms : List Machine) → IsFirst (first_of b ms) (b ∷ ms)
unfolding first_of
first_of-IsFirst b [] = alone b
first_of-IsFirst b (m ∷ ms) =
    by_name (is_lt (compare m.name b.name)) refl (first_of-IsFirst m ms) (first_of-IsFirst b ms)
  where
    by_name :
        (c : Bool)
        → is_lt (compare m.name b.name) ≡ c
        → IsFirst (first_of m ms) (m ∷ ms)
        → IsFirst (first_of b ms) (b ∷ ms)
        → IsFirst (first_of (if c then m else b) ms) (b ∷ m ∷ ms)
    by_name true e h k =
        in_front (first_of m ms) b (m ∷ ms)
          (not_before_trans b.name m.name _ (before_asym m.name b.name e) (h.least 0 m refl)) h
    by_name false e h k = swapped _ m b ms (
        in_front (first_of b ms) m (b ∷ ms) (not_before_trans m.name b.name _ e (k.least 0 b refl))
          k)

-- What firstControlPlaneMachine finds is the first of the Machines that are listed.
pub first_machine-IsFirst :
    (ms : List Machine) (m : Machine) → first_machine ms ≡ some m → IsFirst m ms
unfolding first_machine
first_machine-IsFirst [] m h = absurd (cc)
first_machine-IsFirst (x ∷ ms) m h =
    subst (λ y. IsFirst y (x ∷ ms)) (ground arith) (first_of-IsFirst x ms)
