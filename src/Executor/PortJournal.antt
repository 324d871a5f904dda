-- ===== src/Executor/PortJournal.antt =====
-- The port operations of internal/agent/executor/executor.go keep every finished journal entry,
-- whatever k8netd answers and whichever statement SQLite fails.
use cluster_api_hypervisor.Common.{ℕ, String, List, [], ◌∷◌}
use cluster_api_hypervisor.Common.Int.{ℤ}
use cluster_api_hypervisor.Exec.{Error, Result, ok, err}
use cluster_api_hypervisor.Exec.Rules.{Moves, Moves-bind}
use cluster_api_hypervisor.HostAgent.{Mutation, PortRequest}
use cluster_api_hypervisor.Inventory.{
  OperationState, intent, completed, failed, Operation, NetworkResource, PublishedPort,
}
use cluster_api_hypervisor.Executor.{Executor}
use cluster_api_hypervisor.Executor.Ports.{
  recheck_port, after_upsert, create_port, claim_port, ensure_port, release_mapping,
  release_mappings, release_resource, delete_port_of, delete_port,
}
use cluster_api_hypervisor.Executor.Publishing.{
  fail_operation, after_mapping, after_publish, publish_by, publish_unmapped, publish_port,
  after_forget, forget_mapping, after_unpublish, unpublish, release_by, release_port,
}
use cluster_api_hypervisor.Executor.Steps.{
  WorldStep, begin-WorldStep, complete-WorldStep, step_rules, world_order,
}

module _ {N H : Type 0} (e : Executor N H) (m : Mutation) where
  after_upsert-step :
      (r : NetworkResource) (x : Result (Unit {0})) → Moves WorldStep (after_upsert e r x)
  unfolding after_upsert
  after_upsert-step r (ok _) = search step_rules
  after_upsert-step r (err failure) = search (step_rules, recheck-step)
    where
      recheck-step : (x : Result NetworkResource) → Moves WorldStep (recheck_port e r failure x)
      recheck-step (ok existing) = search step_rules
      recheck-step (err _) = search step_rules

  create_port-step : (req : PortRequest) → Moves WorldStep (create_port e m req)
  unfolding create_port
  create_port-step req = search (step_rules, after_upsert-step) depth 12

  claim_port-step :
      (req : PortRequest) (x : Result NetworkResource) → Moves WorldStep (claim_port e m req x)
  unfolding claim_port
  claim_port-step req (ok r) = search step_rules
  claim_port-step req (err x) = search (step_rules, create_port-step)

  pub ensure_port-step : (req : PortRequest) → Moves WorldStep (ensure_port e m req)
  unfolding ensure_port
  ensure_port-step req = search (step_rules, claim_port-step) depth 10

  release_mapping-step :
      (r : NetworkResource) (p : PublishedPort) → Moves WorldStep (release_mapping e m r p)
  unfolding release_mapping
  release_mapping-step r p = search step_rules depth 10

  release_mappings-step :
      (r : NetworkResource) (ps : List PublishedPort) → Moves WorldStep (release_mappings e m r ps)
  unfolding release_mappings
  release_mappings-step r [] = search step_rules
  release_mappings-step r (p ∷ ps) =
      Moves-bind world_order _ _ (release_mapping-step r p) (λ _. release_mappings-step r ps)

  release_resource-step : (r : NetworkResource) → Moves WorldStep (release_resource e m r)
  unfolding release_resource
  release_resource-step r = search (step_rules, release_mappings-step) depth 16

  delete_port_of-step : (x : Result NetworkResource) → Moves WorldStep (delete_port_of e m x)
  unfolding delete_port_of
  delete_port_of-step (ok r) = search (step_rules, release_resource-step)
  delete_port_of-step (err x) = search step_rules

  pub delete_port-step : Moves WorldStep (delete_port e m)
  unfolding delete_port
  delete_port-step = search (step_rules, delete_port_of-step) depth 10

  fail_operation-step :
      {A : Type 0} (kind : String) (op : Operation) (x : Error)
      → Moves (WorldStep {N = N} {H = H}) (fail_operation e {A = A} m kind op x)
  unfolding fail_operation
  fail_operation-step kind op x = search (step_rules, complete-WorldStep)

  after_mapping-step :
      (host : ℕ) (op : Operation) (x : Result (Unit {0}))
      → Moves WorldStep (after_mapping e m host op x)
  unfolding after_mapping
  after_mapping-step host op (ok _) = search (step_rules, complete-WorldStep)
  after_mapping-step host op (err x) = search (step_rules, fail_operation-step)

  after_publish-step :
      (guest : ℕ) (op : Operation) (x : Result ℤ) → Moves WorldStep (after_publish e m guest op x)
  unfolding after_publish
  after_publish-step guest op (ok n) =
      search (step_rules, fail_operation-step, after_mapping-step) depth 10
  after_publish-step guest op (err x) = search (step_rules, fail_operation-step)

  publish_by-step :
      (st : OperationState) (r : NetworkResource) (guest : ℕ) (op : Operation)
      → Moves WorldStep (publish_by e st m r guest op)
  unfolding publish_by
  publish_by-step completed r guest op = search step_rules
  publish_by-step failed r guest op = search step_rules
  publish_by-step intent r guest op = search (step_rules, after_publish-step) depth 10

  publish_unmapped-step :
      (r : NetworkResource) (guest : ℕ) (x : Result PublishedPort)
      → Moves WorldStep (publish_unmapped e m r guest x)
  unfolding publish_unmapped
  publish_unmapped-step r guest (ok p) = search step_rules
  publish_unmapped-step r guest (err x) =
      search (step_rules, begin-WorldStep, publish_by-step) depth 10

  -- However PublishPort ends, and whatever k8netd and SQLite answer: no row leaves the journal, each
  -- keeps its request, a row with an outcome is unchanged, and unique keys stay unique.
  pub publish_port-step : (guest host : ℕ) → Moves WorldStep (publish_port e m guest host)
  unfolding publish_port
  publish_port-step guest host = search (step_rules, publish_unmapped-step) depth 14

  after_forget-step :
      (op : Operation) (x : Result (Unit {0})) → Moves WorldStep (after_forget e m op x)
  unfolding after_forget
  after_forget-step op (ok _) = search (step_rules, complete-WorldStep)
  after_forget-step op (err x) = search (step_rules, fail_operation-step)

  forget_mapping-step : (guest : ℕ) (op : Operation) → Moves WorldStep (forget_mapping e m guest op)
  unfolding forget_mapping
  forget_mapping-step guest op = search (step_rules, after_forget-step)

  after_unpublish-step :
      (guest : ℕ) (op : Operation) (x : Result (Unit {0}))
      → Moves WorldStep (after_unpublish e m guest op x)
  unfolding after_unpublish
  after_unpublish-step guest op (ok _) = search forget_mapping-step
  after_unpublish-step guest op (err x) =
      search (step_rules, forget_mapping-step, fail_operation-step)

  release_by-step :
      (st : OperationState) (r : NetworkResource) (guest : ℕ) (op : Operation)
      → (x : Result PublishedPort) → Moves WorldStep (release_by e st m r guest op x)
  unfolding release_by unpublish
  release_by-step completed r guest op x = search step_rules
  release_by-step failed r guest op x = search step_rules
  release_by-step intent r guest op (ok p) = search (step_rules, after_unpublish-step)
  release_by-step intent r guest op (err x) = search step_rules

  -- However ReleasePort ends, and whatever k8netd and SQLite answer: no row leaves the journal, each
  -- keeps its request, a row with an outcome is unchanged, and unique keys stay unique.
  pub release_port-step : (guest host : ℕ) → Moves WorldStep (release_port e m guest host)
  unfolding release_port
  release_port-step guest host = search (step_rules, begin-WorldStep, release_by-step) depth 14
