-- ===== src/Executor/Ports.antt =====
-- EnsurePort, DeletePort, AllocateIP, ReleaseIP and the networks of
-- internal/agent/executor/executor.go.
use cluster_api_hypervisor.Common.{
  String, Bool, not, ◌&&◌, ◌||◌, List, [], ◌∷◌, ◌==◌, if◌then◌else◌,
}
use cluster_api_hypervisor.Exec.{
  Error, Result, ok, err, Exec, pure, raise, lift, attempt, conflict, unauthorized, unavailable,
  panic, ◌>>=◌, ◌>>◌,
}
use cluster_api_hypervisor.HostAgent.{Mutation, PortRequest, PortObserved, validate}
use cluster_api_hypervisor.Inventory.{NetworkResource, PublishedPort}
use cluster_api_hypervisor.Inventory.Resources.{
  upsert_network_resource, get_network_resource, get_network_resource_by_port,
  delete_network_resource, list_published_ports, delete_published_port,
}
use cluster_api_hypervisor.Executor.{
  Executor, World, on_store, on_network, is_no_rows, is_net_not_found, is_net_already_exists,
  tolerate,
}

-- observedPort
unfoldable pub observed_port : NetworkResource → PortObserved
observed_port r = record {
  name = r.port;
  network = r.network;
  mac = r.mac;
  ip = r.ip;
  published = [];
}

-- The row that EnsurePort records for a request.
abbrev pub resource_of : Mutation → PortRequest → String → NetworkResource
resource_of m req ip = record {
  installation_id = m.owner.installation_id;
  owner_uid = m.owner.uid;
  node_id = m.owner.node_id;
  network = req.network;
  port = req.name;
  mac = req.mac;
  ip = ip;
}

-- NodeID, Network and MAC of a recorded resource are those of the wanted one.
unfoldable pub same_identity : NetworkResource → NetworkResource → Bool
same_identity recorded wanted =
    recorded.node_id == wanted.node_id
    && recorded.network == wanted.network
    && recorded.mac == wanted.mac

-- A port that is recorded already: it is returned if it is the caller's and its identity matches.
unfoldable pub claim_recorded : NetworkResource → NetworkResource → Result PortObserved
claim_recorded recorded wanted =
    if not (recorded.owner_uid == wanted.owner_uid)
    then err conflict
    else if same_identity recorded wanted
    then ok (observed_port recorded)
    else err conflict

-- The body of the loop of DeletePort: unpublish a mapping, and then forget it.
unfoldable pub release_mapping :
    {N H : Type 0}
    → Executor N H
    → Mutation
    → NetworkResource
    → PublishedPort
    → Exec (World N H) (Unit {0})
release_mapping e m resource mapping = do
  unpublished ← attempt (on_network (e.network.unpublish_port resource.port mapping.guest_port))
  tolerate is_net_not_found unpublished
  on_store (delete_published_port m.owner.installation_id m.owner.uid mapping.guest_port)

-- for _, mapping := range published, up to the first error
unfoldable pub release_mappings :
    {N H : Type 0}
    → Executor N H
    → Mutation
    → NetworkResource
    → List PublishedPort
    → Exec (World N H) (Unit {0})
release_mappings e m resource [] = pure tt
release_mappings e m resource (mapping ∷ rest) =
    release_mapping e m resource mapping >> release_mappings e m resource rest

module _ {N H : Type 0} (e : Executor N H) where
  -- The error of UpsertNetworkResource: another call may have recorded the port meanwhile.
  unfoldable pub recheck_port :
      NetworkResource → Error → Result NetworkResource → Exec (World N H) PortObserved
  recheck_port wanted failure (ok existing) = lift (claim_recorded existing wanted)
  recheck_port wanted failure (err _) = raise failure

  unfoldable pub after_upsert : NetworkResource → Result (Unit {0}) → Exec (World N H) PortObserved
  unfolding recheck_port
  after_upsert wanted (ok _) = pure (observed_port wanted)
  after_upsert wanted (err failure) = do
    existing ← attempt (on_store (get_network_resource_by_port wanted.installation_id wanted.port))
    recheck_port wanted failure existing

  unfoldable pub create_port : Mutation → PortRequest → Exec (World N H) PortObserved
  create_port m req = do
    created ← attempt (on_network (e.network.create_port req.name))
    tolerate is_net_already_exists created
    attached ← attempt (on_network (e.network.attach_port req.name req.network req.mac))
    tolerate is_net_already_exists attached
    ip ← on_network (e.network.allocate_ip req.network req.mac)
    stored ← attempt (on_store (upsert_network_resource (resource_of m req ip)))
    after_upsert (resource_of m req ip) stored

  unfoldable pub claim_port :
      Mutation → PortRequest → Result NetworkResource → Exec (World N H) PortObserved
  claim_port m req (ok resource) = lift (claim_recorded resource (resource_of m req ""))
  claim_port m req (err failure) = if is_no_rows failure then create_port m req else raise failure

  -- EnsurePort
  unfoldable pub ensure_port : Mutation → PortRequest → Exec (World N H) PortObserved
  ensure_port m req = do
    lift (validate m)
    if not e.has_network || not e.has_store || req.name == "" || req.network == "" || req.mac == ""
        then raise unavailable
        else do
          found ← attempt (on_store (get_network_resource_by_port m.owner.installation_id req.name))
          claim_port m req found

  unfoldable pub release_resource : Mutation → NetworkResource → Exec (World N H) (Unit {0})
  release_resource m resource = do
    mappings ← on_store (list_published_ports m.owner.installation_id m.owner.uid)
    release_mappings e m resource mappings
    released ← attempt (on_network (e.network.release_ip resource.network resource.mac))
    tolerate is_net_not_found released
    detached ← attempt (on_network (e.network.detach_port resource.port))
    tolerate is_net_not_found detached
    deleted ← attempt (on_network (e.network.delete_port resource.port))
    tolerate is_net_not_found deleted
    on_store (delete_network_resource m.owner.installation_id m.owner.uid)

  unfoldable pub delete_port_of : Mutation → Result NetworkResource → Exec (World N H) (Unit {0})
  delete_port_of m (ok resource) =
      if resource.node_id == m.owner.node_id
      then release_resource m resource
      else raise unauthorized
  delete_port_of m (err failure) = if is_no_rows failure then pure tt else raise failure

  -- DeletePort
  unfoldable pub delete_port : Mutation → Exec (World N H) (Unit {0})
  delete_port m = do
    lift (validate m)
    if not e.has_network || not e.has_store then raise unavailable else do
      found ← attempt (on_store (get_network_resource m.owner.installation_id m.owner.uid))
      delete_port_of m found

  -- AllocateIP; a nil Store or Network panics
  unfoldable pub allocate_ip : Mutation → Exec (World N H) String
  allocate_ip m = do
    lift (validate m)
    if not e.has_store then raise panic else do
      resource ← on_store (get_network_resource m.owner.installation_id m.owner.uid)
      if not (resource.node_id == m.owner.node_id)
          then raise unauthorized
          else if not e.has_network
          then raise panic
          else on_network (e.network.allocate_ip resource.network resource.mac)

  -- ReleaseIP
  unfoldable pub release_ip : Mutation → String → Exec (World N H) (Unit {0})
  release_ip m ip = do
    lift (validate m)
    if not e.has_store then raise panic else do
      resource ← on_store (get_network_resource m.owner.installation_id m.owner.uid)
      if not (resource.ip == ip) || not (resource.node_id == m.owner.node_id)
          then raise unauthorized
          else if not e.has_network
          then raise panic
          else on_network (e.network.release_ip resource.network resource.mac)

  -- DeleteNetwork; the name of a network is the UID of its owner
  unfoldable pub delete_network : Mutation → Exec (World N H) (Unit {0})
  delete_network m = do
    lift (validate m)
    if not e.has_network then raise unavailable else do
      deleted ← attempt (on_network (e.network.delete_network m.owner.uid))
      tolerate is_net_not_found deleted
