-- ===== src/Executor/Triples.antt =====
-- Postconditions of the steps of internal/agent/executor/executor.go that speak of the inventory.
use cluster_api_hypervisor.Common.{Bool}
use cluster_api_hypervisor.Exec.{Error, Result, ok, err, Exec, attempt}
use cluster_api_hypervisor.Exec.Triple.{Triple, Triple-pure, Triple-raise, Triple-if}
use cluster_api_hypervisor.Inventory.{Store, Tables}
use cluster_api_hypervisor.Executor.{World, on_store, on_network, tolerate}

module _ {N H : Type 0} where
  abbrev pub tables_of : World N H → Tables
  tables_of w = w.store.tables

  pub Triple-on_store :
      {A : Type 0} (P : Store → Type 0) (m : Exec Store A) (Q : A → Store → Type 0)
      → Triple P m Q
      → Triple (λ (w : World N H). P w.store) (on_store m) (λ a w. Q a w.store)
  unfolding on_store
  Triple-on_store P m Q k = record { at = λ w p a e. k.at w.store p a e }

  -- k8netd does not touch the inventory.
  pub Triple-on_network :
      {A : Type 0} (P : Tables → Type 0) (m : Exec N A)
      → Triple (λ (w : World N H). P (tables_of w)) (on_network m) (λ a w. P (tables_of w))
  unfolding on_network
  Triple-on_network P m = record { at = λ w p a e. p }

  pub Triple-attempt_network :
      {A : Type 0} (P : Tables → Type 0) (m : Exec N A)
      → Triple
          (λ (w : World N H). P (tables_of w))
          (attempt (on_network m))
          (λ a w. P (tables_of w))
  unfolding on_network attempt
  Triple-attempt_network P m = record { at = λ w p a e. p }

  pub Triple-tolerate :
      (P : World N H → Type 0) (p : Error → Bool) (r : Result (Unit {0}))
      → Triple P (tolerate p r) (λ a w. P w)
  unfolding tolerate
  Triple-tolerate P p (ok _) = Triple-pure tt (λ w h. h)
  Triple-tolerate P p (err x) =
      Triple-if _ _ _ (λ _. Triple-pure tt (λ w h. h)) (λ _. Triple-raise x)
