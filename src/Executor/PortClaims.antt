-- ===== src/Executor/PortClaims.antt =====
-- What a successful EnsurePort of internal/agent/executor/executor.go guarantees.
use cluster_api_hypervisor.Common.{String, ◌≡◌, refl, some, Option, none, arith, eq_iff, find}
use cluster_api_hypervisor.Exec.{Error, unavailable, Result, ok, err}
use cluster_api_hypervisor.Exec.Triple.{
  Triple, OnOk, Triple-pure, Triple-raise, Triple-lift, Triple-if, Triple-bind, Triple-attempt,
}
use cluster_api_hypervisor.HostAgent.{Mutation, PortRequest, PortObserved}
use cluster_api_hypervisor.Inventory.{NetworkResource, Tables}
use cluster_api_hypervisor.Inventory.Steps.{Triple-statement}
use cluster_api_hypervisor.Inventory.Resources.{
  scan, holds_port, read_resource_by_port, get_network_resource_by_port, put_network_resource,
  upsert_network_resource,
}
use cluster_api_hypervisor.Inventory.ResourceLaws.{put_network_resource-holds}
use cluster_api_hypervisor.Executor.{Executor, World}
use cluster_api_hypervisor.Executor.Triples.{
  tables_of, Triple-on_store, Triple-on_network, Triple-attempt_network, Triple-tolerate,
}
use cluster_api_hypervisor.Executor.Ports.{
  observed_port, resource_of, same_identity, claim_recorded, recheck_port, after_upsert,
  create_port, claim_port, ensure_port,
}

-- The inventory records the port for the wanted owner, node, network and MAC, and `obs` is what it
-- records.
pub record IsHeld (wanted : NetworkResource) (obs : PortObserved) (t : Tables) : Type 0 where
  pub row : NetworkResource
  pub recorded : find (holds_port wanted.installation_id wanted.port) t.networks ≡ some row
  pub owner : row.owner_uid ≡ wanted.owner_uid
  pub node : row.node_id ≡ wanted.node_id
  pub network : row.network ≡ wanted.network
  pub mac : row.mac ≡ wanted.mac
  pub observed : obs ≡ observed_port row

-- What GetNetworkResourceByPort returns is what the table holds.
get_by_port-post :
    (i p : String)
    → Triple
        (λ s. Unit)
        (get_network_resource_by_port i p)
        (λ row s. find (holds_port i p) s.networks ≡ some row)
unfolding get_network_resource_by_port read_resource_by_port
get_by_port-post i p =
    Triple-statement (read_resource_by_port i p) (λ t. Unit)
      (λ row t. find (holds_port i p) t.networks ≡ some row)
      (λ t _ a e. found (find (holds_port i p) t.networks) a e)
  where
    found : (o : Option NetworkResource) (a : NetworkResource) → scan o ≡ ok a → o ≡ some a
    found none a e = absurd (cc)
    found (some r) a e = cc

upsert-post :
    (r : NetworkResource)
    → Triple
        (λ s. Unit)
        (upsert_network_resource r)
        (λ _ s. find (holds_port r.installation_id r.port) s.networks ≡ some r)
unfolding upsert_network_resource
upsert-post r =
    Triple-statement (put_network_resource r) (λ t. Unit)
      (λ _ t. find (holds_port r.installation_id r.port) t.networks ≡ some r)
      (λ t _ a e. put_network_resource-holds r t a e)

claim_recorded-IsHeld :
    (row wanted : NetworkResource) (obs : PortObserved) (t : Tables)
    → claim_recorded row wanted ≡ ok obs
    → find (holds_port wanted.installation_id wanted.port) t.networks ≡ some row
    → IsHeld wanted obs t
unfolding claim_recorded same_identity
claim_recorded-IsHeld row wanted obs t e f = record {
  row = row;
  recorded = f;
  owner = ground (arith, eq_iff row.owner_uid wanted.owner_uid);
  node = ground (arith, eq_iff row.node_id wanted.node_id);
  network = ground (arith, eq_iff row.network wanted.network);
  mac = ground (arith, eq_iff row.mac wanted.mac);
  observed = ground arith;
}

module _ {N H : Type 0} (e : Executor N H) (m : Mutation) (req : PortRequest) where
  abbrev Held : PortObserved → World N H → Type 0
  Held obs w = IsHeld (resource_of m req "") obs (tables_of w)

  recheck_port-post :
      (wanted : NetworkResource) (failure : Error) (r : Result NetworkResource)
      → Triple
          (λ w.
            OnOk
              (λ row w'.
                find (holds_port wanted.installation_id wanted.port) (tables_of w').networks
                ≡ some row)
              r
              w)
          (recheck_port e wanted failure r)
          (λ obs w. IsHeld wanted obs (tables_of w))
  unfolding recheck_port
  recheck_port-post wanted failure (ok row) =
      Triple-lift _ (λ obs x w h. claim_recorded-IsHeld row wanted obs (tables_of w) x h)
  recheck_port-post wanted failure (err _) = Triple-raise failure

  after_upsert-post :
      (wanted : NetworkResource) (r : Result (Unit {0}))
      → Triple
          (λ w.
            OnOk
              (λ _ w'.
                find (holds_port wanted.installation_id wanted.port) (tables_of w').networks
                ≡ some wanted)
              r
              w)
          (after_upsert e wanted r)
          (λ obs w. IsHeld wanted obs (tables_of w))
  unfolding after_upsert
  after_upsert-post wanted (ok _) = Triple-pure _ (λ w h. record {
    row = wanted;
    recorded = h;
    owner = refl;
    node = refl;
    network = refl;
    mac = refl;
    observed = refl;
  })
  after_upsert-post wanted (err failure) =
      Triple-bind _ _ _
        (Triple-attempt _
          (Triple-on_store (λ _. Unit) _ _ (get_by_port-post wanted.installation_id wanted.port)))
        (λ r. recheck_port-post wanted failure r)

  create_port-post : Triple (λ w. Unit) (create_port e m req) Held
  unfolding create_port
  create_port-post =
      Triple-bind (λ _ _. Unit) _ _ (Triple-attempt_network (λ _. Unit) _)
        λ created.
          Triple-bind (λ _ _. Unit) _ _ (Triple-tolerate (λ _. Unit) _ created)
            λ _.
              Triple-bind (λ _ _. Unit) _ _ (Triple-attempt_network (λ _. Unit) _)
                λ attached.
                  Triple-bind (λ _ _. Unit) _ _ (Triple-tolerate (λ _. Unit) _ attached)
                    λ _.
                      Triple-bind (λ _ _. Unit) _ _ (Triple-on_network (λ _. Unit) _)
                        λ ip.
                          Triple-bind _ _ _
                            (Triple-attempt _ (
                              Triple-on_store (λ _. Unit) _ _ (upsert-post (resource_of m req ip))))
                            λ stored. same_held ip stored
    where
      same_held :
          (ip : String) (r : Result (Unit {0}))
          → Triple
              (λ w.
                OnOk
                  (λ _ w'.
                    find (holds_port m.owner.installation_id req.name) (tables_of w').networks
                    ≡ some (resource_of m req ip))
                  r
                  w)
              (after_upsert e (resource_of m req ip) r)
              Held
      same_held ip r = record {
        at = λ w p obs x.
            let h = (after_upsert-post (resource_of m req ip) r).at w p obs x in
            record {
              row = h.row;
              recorded = h.recorded;
              owner = h.owner;
              node = h.node;
              network = h.network;
              mac = h.mac;
              observed = h.observed;
            };
      }

  claim_port-post :
      (r : Result NetworkResource)
      → Triple
          (λ w.
            OnOk
              (λ row w'.
                find (holds_port m.owner.installation_id req.name) (tables_of w').networks
                ≡ some row)
              r
              w)
          (claim_port e m req r)
          Held
  unfolding claim_port
  claim_port-post (ok row) =
      Triple-lift _ (λ obs x w h. claim_recorded-IsHeld row _ obs (tables_of w) x h)
  claim_port-post (err failure) =
      Triple-if _ _ _ (λ _. create_port-post) (λ _. Triple-raise failure)

  -- A successful EnsurePort, whatever k8netd and SQLite do, leaves the port recorded for the caller:
  -- its UID and node, the requested network and MAC; and it returns what is recorded.
  pub ensure_port-IsHeld :
      (w : World N H) (obs : PortObserved)
      → (ensure_port e m req w).0 ≡ ok obs
      → IsHeld (resource_of m req "") obs (tables_of (ensure_port e m req w).1)
  unfolding ensure_port
  ensure_port-IsHeld w obs x = whole.at w tt obs x
    where
      whole : Triple (λ w. Unit) (ensure_port e m req) Held
      whole =
          Triple-bind (λ _ _. Unit) _ _ (Triple-lift _ (λ _ _ _ _. tt))
            λ _.
              Triple-if _ _ _ (λ _. Triple-raise unavailable)
                λ _.
                  Triple-bind _ _ _
                    (Triple-attempt _ (
                      Triple-on_store (λ _. Unit) _ _
                        (get_by_port-post m.owner.installation_id req.name)))
                    (λ r. claim_port-post r)
