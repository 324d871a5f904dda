-- ===== src/Executor/Steps.antt =====
-- What one step of an operation of internal/agent/executor/executor.go does to the journal.
use cluster_api_hypervisor.Common.{ℕ, String, Bool, ◌≡◌, refl, List, arith}
use cluster_api_hypervisor.Exec.{Error, Result, ok, err, Exec}
use cluster_api_hypervisor.Exec.Rules.{
  IsPreorder, Moves, Moves-pure, Moves-raise, Moves-lift, Moves-attempt, Moves-if, Moves-bind,
  Moves-reading, moves_rules,
}
use cluster_api_hypervisor.HostAgent.{Mutation}
use cluster_api_hypervisor.Inventory.{
  OperationState, NetworkResource, PublishedPort, Operation, Tables, Store, Query, statement,
}
use cluster_api_hypervisor.Inventory.JournalLaws.{JournalKept-IsPreorder, JournalKept-other}
use cluster_api_hypervisor.Inventory.JournalSteps.{
  JournalStep, step_order, begin_operation-JournalStep, complete_operation-JournalStep,
}
use cluster_api_hypervisor.Inventory.Steps.{Moves-statement}
use cluster_api_hypervisor.Inventory.Resources.{
  upsert_network_resource, put_network_resource, get_network_resource, read_network_resource,
  get_network_resource_by_port, read_resource_by_port, delete_network_resource,
  drop_network_resource, upsert_published_port, put_published_port, get_published_port,
  read_published_port, list_published_ports, read_published_ports, delete_published_port,
  drop_published_port,
}
use cluster_api_hypervisor.Executor.{Executor, World, on_store, on_network, on_machine, tolerate}
use cluster_api_hypervisor.Executor.Journal.{begin, complete, journal_error}

-- A statement on another table than the journal.
pub other_table :
    {A : Type 0} (q : Query A)
    → ((t : Tables) → (q t).1.journal ≡ t.journal)
    → Moves JournalStep (statement q)
other_table q h = Moves-statement JournalKept-IsPreorder q (λ t. JournalKept-other t (q t).1 (h t))

put_network-journal :
    (r : NetworkResource) (t : Tables) → (put_network_resource r t).1.journal ≡ t.journal
unfolding put_network_resource
put_network-journal r t = ground arith

put_port-journal :
    (b : Bool) (p : PublishedPort) (t : Tables) → (put_published_port b p t).1.journal ≡ t.journal
unfolding put_published_port
put_port-journal b p t = ground arith

pub upsert_network-step : (r : NetworkResource) → Moves JournalStep (upsert_network_resource r)
unfolding upsert_network_resource
upsert_network-step r = other_table _ (put_network-journal r)

pub get_network-step : (i u : String) → Moves JournalStep (get_network_resource i u)
unfolding get_network_resource read_network_resource
get_network-step i u = other_table _ (λ t. refl)

pub get_by_port-step : (i p : String) → Moves JournalStep (get_network_resource_by_port i p)
unfolding get_network_resource_by_port read_resource_by_port
get_by_port-step i p = other_table _ (λ t. refl)

pub delete_network-step : (i u : String) → Moves JournalStep (delete_network_resource i u)
unfolding delete_network_resource drop_network_resource
delete_network-step i u =
    Moves-reading _ λ s. other_table (drop_network_resource s.foreign_keys i u) (λ t. refl)

pub upsert_port-step : (p : PublishedPort) → Moves JournalStep (upsert_published_port p)
unfolding upsert_published_port
upsert_port-step p = Moves-reading _ λ s. other_table _ (put_port-journal s.foreign_keys p)

pub get_port-step : (i u : String) (g : ℕ) → Moves JournalStep (get_published_port i u g)
unfolding get_published_port read_published_port
get_port-step i u g = other_table _ (λ t. refl)

pub list_ports-step : (i u : String) → Moves JournalStep (list_published_ports i u)
unfolding list_published_ports read_published_ports
list_ports-step i u = other_table _ (λ t. refl)

pub delete_port-step : (i u : String) (g : ℕ) → Moves JournalStep (delete_published_port i u g)
unfolding delete_published_port drop_published_port
delete_port-step i u g = other_table _ (λ t. refl)

-- The same of a step of the executor.
pub record WorldStep {N H : Type 0} (v w : World N H) : Type 0 where
  pub store_moved : JournalStep v.store w.store

module _ {N H : Type 0} where
  pub world_order : IsPreorder (WorldStep {N = N} {H = H})
  world_order = record {
    at_rest = λ w. record { store_moved = step_order.at_rest w.store };
    through = λ u v w h k. record {
      store_moved = step_order.through u.store v.store w.store h.store_moved k.store_moved;
    };
  }

  pub on_store-WorldStep :
      {A : Type 0} (m : Exec Store A)
      → Moves JournalStep m
      → Moves (WorldStep {N = N} {H = H}) (on_store m)
  unfolding on_store
  on_store-WorldStep m k = record { at = λ w. record { store_moved = k.at w.store } }

  pub on_network-WorldStep :
      {A : Type 0} (m : Exec N A) → Moves (WorldStep {N = N} {H = H}) (on_network m)
  unfolding on_network
  on_network-WorldStep m = record { at = λ w. record { store_moved = step_order.at_rest w.store } }

  pub on_machine-WorldStep :
      {A : Type 0} (m : Exec H A) → Moves (WorldStep {N = N} {H = H}) (on_machine m)
  unfolding on_machine
  on_machine-WorldStep m = record { at = λ w. record { store_moved = step_order.at_rest w.store } }

  pub tolerate-WorldStep :
      (p : Error → Bool) (r : Result (Unit {0})) → Moves (WorldStep {N = N} {H = H}) (tolerate p r)
  unfolding tolerate
  tolerate-WorldStep p (ok _) = Moves-pure world_order tt
  tolerate-WorldStep p (err x) =
      Moves-if _ _ _ (Moves-pure world_order tt) (Moves-raise world_order x)

pub ruleset step_rules = (
  moves_rules, world_order, on_store-WorldStep, on_network-WorldStep, on_machine-WorldStep,
  tolerate-WorldStep, upsert_network-step, get_network-step, get_by_port-step, delete_network-step,
  upsert_port-step, get_port-step, list_ports-step, delete_port-step, begin_operation-JournalStep,
  complete_operation-JournalStep,
)

module _ {N H : Type 0} where
  journal_error-WorldStep :
      (r : Result (Operation × Bool)) → Moves (WorldStep {N = N} {H = H}) (journal_error r)
  unfolding journal_error
  journal_error-WorldStep (ok begun) = search step_rules
  journal_error-WorldStep (err x) = search step_rules

module _ {N H : Type 0} (e : Executor N H) where
  pub begin-WorldStep :
      (m : Mutation) (kind : String) (inputs : List ℕ) → Moves WorldStep (begin e m kind inputs)
  unfolding begin
  begin-WorldStep m kind inputs = search (step_rules, journal_error-WorldStep)

  pub complete-WorldStep :
      (m : Mutation) (kind hash : String) (state : OperationState) (result failure : String)
      → Moves (WorldStep {N = N} {H = H}) (complete m kind hash state result failure)
  unfolding complete
  complete-WorldStep m kind hash state result failure = search step_rules
