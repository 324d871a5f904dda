-- ===== src/Executor/PublishReplay.antt =====
-- PublishPort of internal/agent/executor/executor.go again: a request that was answered is answered
-- alike, with no call of k8netd and no write.
use cluster_api_hypervisor.Common.{
  ℕ, true, false, ◌==◌, ◌≡◌, inl, inr, some, none, [], ◌∷◌, arith, find, eqb, ltb,
}
use cluster_api_hypervisor.Exec.{ok, ◌>>=◌}
use cluster_api_hypervisor.HostAgent.{Mutation, validate}
use cluster_api_hypervisor.Inventory.{Operation, NetworkResource, statement}
use cluster_api_hypervisor.Inventory.Journal.{at_key_of, same_request, validate_operation}
use cluster_api_hypervisor.Inventory.JournalReplay.{begin_operation-taken}
use cluster_api_hypervisor.Inventory.Resources.{
  owns_resource, get_network_resource, read_network_resource, get_published_port,
  read_published_port,
}
use cluster_api_hypervisor.Executor.{Executor, World, on_store, is_no_rows}
use cluster_api_hypervisor.Executor.Journal.{journal_error, begin}
use cluster_api_hypervisor.Executor.PublishLaws.{request, mapping_in, IsMapped, IsPublished}
use cluster_api_hypervisor.Executor.Publishing.{publish_by, publish_unmapped, publish_port}

module _ {N H : Type 0} (e : Executor N H) (m : Mutation) (guest : ℕ) (w : World N H) where
  -- The request passes the checks of PublishPort, the agent is set up, and no statement is going to
  -- fail.
  pub record IsAdmitted : Type 0 where
    pub valid : validate m ≡ ok tt
    pub low : eqb guest 0 ≡ false
    pub high : ltb 65535 guest ≡ false
    pub with_network : e.has_network ≡ true
    pub with_store : e.has_store ≡ true
    pub resource : NetworkResource
    pub recorded :
        find (owns_resource m.owner.installation_id m.owner.uid) w.store.networks ≡ some resource
    pub node : (resource.node_id == m.owner.node_id) ≡ true
    pub journalled : validate_operation (request e m guest) ≡ true
    pub calm : w.store.faults ≡ []

  publish_port-mapped :
      (n : ℕ)
      → IsAdmitted
      → IsMapped e m guest n w.store.tables
      → publish_port e m guest 0 w ≡ (ok n, w)
  unfolding publish_port publish_unmapped ◌>>=◌ on_store statement get_network_resource
      read_network_resource get_published_port read_published_port
  publish_port-mapped n a h = ground arith

  -- BeginOperation of a request that the journal has as terminal.
  begin_taken :
      (row : Operation)
      → IsAdmitted
      → find (at_key_of (request e m guest)) w.store.journal ≡ some row
      → same_request row (request e m guest) ≡ true
      → begin e m "PublishPort" (guest ∷ []) w ≡ (ok row, w)
  unfolding begin journal_error ◌>>=◌ on_store
  begin_taken row a found same =
      ground
        (arith, begin_operation-taken (request e m guest) w.store a.calm a.journalled row found)

  publish_port-begun :
      (a : IsAdmitted) (row : Operation)
      → find (at_key_of (request e m guest)) w.store.journal ≡ some row
      → same_request row (request e m guest) ≡ true
      → mapping_in e m guest w.store.tables ≡ none
      → publish_port e m guest 0 w ≡ publish_by e row.state m a.resource guest row w
  unfolding publish_port publish_unmapped ◌>>=◌ on_store statement get_network_resource
      read_network_resource get_published_port read_published_port is_no_rows
  publish_port-begun a row found same unmapped = ground (arith, begin_taken row a found same)

  -- A request that passes the checks, when SQLite fails no statement, and whose answer is in the inventory, as a mapping or as a completed journal entry, gets it
  -- again, and neither the tables, nor k8netd, nor the machine change.
  pub publish_port-settled :
      (n : ℕ)
      → IsAdmitted
      → IsPublished e m guest n w.store.tables
      → publish_port e m guest 0 w ≡ (ok n, w)
  unfolding publish_by ◌>>=◌
  publish_port-settled n a (inl h) = publish_port-mapped n a h
  publish_port-settled n a (inr r) =
      ground (arith, publish_port-begun a r.row r.entry.recorded r.entry.same r.unmapped)
