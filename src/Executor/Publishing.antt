-- ===== src/Executor/Publishing.antt =====
-- PublishPort and ReleasePort of internal/agent/executor/executor.go: the mappings from guest ports
-- to host ports.
use cluster_api_hypervisor.Common.{ℕ, String, not, ◌||◌, [], ◌∷◌, ◌==◌, eqb, ltb, if◌then◌else◌}
use cluster_api_hypervisor.Common.Int.{ℤ, out_of_port_range, to_ℕ}
use cluster_api_hypervisor.Exec.{
  Error, Result, ok, err, Exec, pure, raise, lift, attempt, not_found, invalid_request,
  unauthorized, unavailable, ◌>>=◌, ◌>>◌,
}
use cluster_api_hypervisor.HostAgent.{Mutation, validate}
use cluster_api_hypervisor.Inventory.{
  OperationState, intent, completed, failed, Operation, NetworkResource, PublishedPort,
}
use cluster_api_hypervisor.Inventory.Resources.{
  get_network_resource, get_published_port, upsert_published_port, delete_published_port,
}
use cluster_api_hypervisor.Executor.{
  Executor, World, on_store, on_network, is_no_rows, is_net_not_found,
}
use cluster_api_hypervisor.Executor.Journal.{begin, complete}

abbrev pub mapping_of : Mutation → ℕ → ℕ → PublishedPort
mapping_of m guest host = record {
  installation_id = m.owner.installation_id;
  owner_uid = m.owner.uid;
  guest_port = guest;
  host_port = host;
}

module _ {N H : Type 0} (e : Executor N H) where
  -- `_ = e.complete(..., OperationFailed, "", err.Error()); return ..., err`
  unfoldable pub fail_operation :
      {A : Type 0} → Mutation → String → Operation → Error → Exec (World N H) A
  fail_operation m kind op failure = do
    attempt (complete m kind op.request_hash failed "" (e.error_text failure))
    raise failure

  unfoldable pub after_mapping : Mutation → ℕ → Operation → Result (Unit {0}) → Exec (World N H) ℕ
  after_mapping m host op (ok _) = do
    complete m "PublishPort" op.request_hash completed (e.encode_port host) ""
    pure host
  after_mapping m host op (err failure) = fail_operation m "PublishPort" op failure

  -- What k8netd returned.
  unfoldable pub after_publish : Mutation → ℕ → Operation → Result ℤ → Exec (World N H) ℕ
  after_publish m guest op (ok result) =
      if out_of_port_range result then fail_operation m "PublishPort" op invalid_request else do
        stored ← attempt (on_store (upsert_published_port (mapping_of m guest (to_ℕ result))))
        after_mapping m (to_ℕ result) op stored
  after_publish m guest op (err failure) = fail_operation m "PublishPort" op failure

  -- By the state of the journal entry.
  unfoldable pub publish_by :
      OperationState → Mutation → NetworkResource → ℕ → Operation → Exec (World N H) ℕ
  publish_by completed m resource guest op = lift (e.decode_port op.result)
  publish_by failed m resource guest op = raise unavailable
  publish_by intent m resource guest op = do
    published ← attempt (on_network (e.network.publish_port resource.port guest))
    after_publish m guest op published

  unfoldable pub publish_unmapped :
      Mutation → NetworkResource → ℕ → Result PublishedPort → Exec (World N H) ℕ
  publish_unmapped m resource guest (ok mapping) = pure mapping.host_port
  publish_unmapped m resource guest (err failure) =
      if is_no_rows failure
      then (do op ← begin e m "PublishPort" (guest ∷ []); publish_by op.state m resource guest op)
      else raise failure

  -- PublishPort
  unfoldable pub publish_port : Mutation → ℕ → ℕ → Exec (World N H) ℕ
  publish_port m guest host = do
    lift (validate m)
    if eqb guest 0 || ltb 65535 guest || not (eqb host 0) || not e.has_network || not e.has_store
        then raise invalid_request
        else do
          resource ← on_store (get_network_resource m.owner.installation_id m.owner.uid)
          if not (resource.node_id == m.owner.node_id) then raise unauthorized else do
            mapping ←
                attempt (on_store (get_published_port m.owner.installation_id m.owner.uid guest))
            publish_unmapped m resource guest mapping

  unfoldable pub after_forget :
      Mutation → Operation → Result (Unit {0}) → Exec (World N H) (Unit {0})
  after_forget m op (ok _) = complete m "ReleasePort" op.request_hash completed "released" ""
  after_forget m op (err failure) = fail_operation m "ReleasePort" op failure

  unfoldable pub forget_mapping : Mutation → ℕ → Operation → Exec (World N H) (Unit {0})
  forget_mapping m guest op = do
    forgotten ← attempt (on_store (delete_published_port m.owner.installation_id m.owner.uid guest))
    after_forget m op forgotten

  unfoldable pub after_unpublish :
      Mutation → ℕ → Operation → Result (Unit {0}) → Exec (World N H) (Unit {0})
  after_unpublish m guest op (ok _) = forget_mapping m guest op
  after_unpublish m guest op (err failure) =
      if is_net_not_found failure
      then forget_mapping m guest op
      else fail_operation m "ReleasePort" op failure

  unfoldable pub unpublish :
      Mutation
      → NetworkResource
      → ℕ
      → Operation
      → Result PublishedPort
      → Exec (World N H) (Unit {0})
  unpublish m resource guest op (ok mapping) = do
    unpublished ← attempt (on_network (e.network.unpublish_port resource.port guest))
    after_unpublish m guest op unpublished
  unpublish m resource guest op (err _) = raise not_found

  unfoldable pub release_by :
      OperationState
      → Mutation
      → NetworkResource
      → ℕ
      → Operation
      → Result PublishedPort
      → Exec (World N H) (Unit {0})
  release_by completed m resource guest op mapping = pure tt
  release_by failed m resource guest op mapping = raise unavailable
  release_by intent m resource guest op mapping = unpublish m resource guest op mapping

  -- The checks of ReleasePort on the recorded mapping.
  unfoldable pub check_mapping : ℕ → Result PublishedPort → Result (Unit {0})
  check_mapping host (ok mapping) =
      if eqb mapping.host_port host then ok tt else err invalid_request
  check_mapping host (err failure) = if is_no_rows failure then ok tt else err failure

  -- ReleasePort
  unfoldable pub release_port : Mutation → ℕ → ℕ → Exec (World N H) (Unit {0})
  release_port m guest host = do
    lift (validate m)
    if eqb guest 0
          || ltb 65535 guest
          || eqb host 0
          || ltb 65535 host
          || not e.has_network
          || not e.has_store
        then raise invalid_request
        else do
          resource ← on_store (get_network_resource m.owner.installation_id m.owner.uid)
          if not (resource.node_id == m.owner.node_id) then raise unauthorized else do
            mapping ←
                attempt (on_store (get_published_port m.owner.installation_id m.owner.uid guest))
            lift (check_mapping host mapping)
            op ← begin e m "ReleasePort" (guest ∷ host ∷ [])
            release_by op.state m resource guest op mapping
