-- ===== src/Examples/Ports.antt =====
-- Tests of internal/agent/executor/executor.go.
use cluster_api_hypervisor.Common.{
  ◌≡◌, refl, inl, [], ◌∷◌, find, select, exists_row, affected, update, delete, ℕ,
}
use cluster_api_hypervisor.Common.Int.{out_of_port_range, to_ℕ}
use cluster_api_hypervisor.Exec.{ok, ◌>>=◌}
use cluster_api_hypervisor.HostAgent.{Owner, validate}
use cluster_api_hypervisor.Inventory.{completed, statement}
use cluster_api_hypervisor.Inventory.Journal.{
  has_key, same_request, validate_operation, begin_operation, insert_intent, load_operation,
  is_terminal, complete_operation, record_outcome, same_state,
}
use cluster_api_hypervisor.Inventory.Resources.{
  holds_port, owns_resource, maps_guest, has_owner, get_network_resource, read_network_resource,
  get_published_port, read_published_port, get_network_resource_by_port, read_resource_by_port,
  upsert_network_resource, put_network_resource, upsert_published_port, put_published_port,
  is_port_number, list_published_ports, read_published_ports, sort_by_guest, insert_by_guest,
  delete_published_port, drop_published_port, delete_network_resource, drop_network_resource,
}
use cluster_api_hypervisor.Executor.{World, on_store, on_network, tolerate, is_no_rows}
use cluster_api_hypervisor.Executor.Journal.{begin, complete, journal_error}
use cluster_api_hypervisor.Executor.Ports.{
  ensure_port, delete_port, resource_of, claim_port, observed_port, create_port, after_upsert,
  delete_port_of, release_resource, release_mappings, release_mapping, allocate_ip, release_ip,
}
use cluster_api_hypervisor.Executor.Publishing.{
  publish_port, release_port, publish_unmapped, publish_by, after_publish, after_mapping,
}
use cluster_api_hypervisor.Executor.PortClaims.{IsHeld, ensure_port-IsHeld}
use cluster_api_hypervisor.Executor.PortRelease.{IsClear, HasParent, delete_port-IsClear}
use cluster_api_hypervisor.Executor.PortAccess.{
  IsDenied, foreign_node-IsDenied, ensure_port-IsDenied,
}
use cluster_api_hypervisor.Executor.PublishLaws.{IsPublished, publish_port-IsPublished}
use cluster_api_hypervisor.Executor.PublishReplay.{IsAdmitted, publish_port-settled}
use cluster_api_hypervisor.Examples.Data.{
  alice, bob, by, entry, resource, mapping, store_of, world_of, agent, port_request,
}

-- The port is there, and mapped.
abbrev mapped : World ℕ ℕ
mapped = world_of (store_of [] (resource ∷ []) (mapping ∷ []))

abbrev answered : World ℕ ℕ
answered = world_of (store_of (entry completed "30080" ∷ []) (resource ∷ []) [])

admitted_mapped : IsAdmitted agent (by alice) 80 mapped
unfolding validate find owns_resource validate_operation
admitted_mapped = record {
  valid = refl;
  low = refl;
  high = refl;
  with_network = refl;
  with_store = refl;
  resource = resource;
  recorded = refl;
  node = refl;
  journalled = refl;
  calm = refl;
}

publish_port-settled_example : publish_port agent (by alice) 80 0 mapped ≡ (ok 30080, mapped)
unfolding find maps_guest has_owner
publish_port-settled_example =
    publish_port-settled agent (by alice) 80 mapped 30080 admitted_mapped (inl refl)

abbrev unmapped : World ℕ ℕ
unmapped = world_of (store_of [] (resource ∷ []) [])

published : (publish_port agent (by alice) 80 0 unmapped).0 ≡ ok 30080
unfolding publish_port validate ◌>>=◌ on_store on_network statement get_network_resource
    read_network_resource get_published_port read_published_port find owns_resource maps_guest
    has_owner publish_unmapped is_no_rows begin begin_operation journal_error insert_intent
    load_operation has_key exists_row same_request is_terminal publish_by after_publish
    upsert_published_port put_published_port is_port_number after_mapping complete
    complete_operation record_outcome affected same_state validate_operation update
    out_of_port_range to_ℕ
published = refl

publish_port-IsPublished_example :
    IsPublished agent
      (by alice)
      80
      30080
      (publish_port agent (by alice) 80 0 unmapped).1.store.tables
publish_port-IsPublished_example =
    publish_port-IsPublished agent (by alice) 80 0 unmapped 30080 published

abbrev bare : World ℕ ℕ
bare = world_of (store_of [] [] [])

ensured : (ensure_port agent (by alice) port_request bare).0 ≡ ok (observed_port resource)
unfolding ensure_port validate ◌>>=◌ on_store on_network statement get_network_resource_by_port
    read_resource_by_port find holds_port claim_port create_port tolerate is_no_rows
    upsert_network_resource put_network_resource exists_row after_upsert observed_port
ensured = refl

ensure_port-IsHeld_example :
    IsHeld
      (resource_of (by alice) port_request "")
      (observed_port resource)
      (ensure_port agent (by alice) port_request bare).1.store.tables
ensure_port-IsHeld_example =
    ensure_port-IsHeld agent (by alice) port_request bare (observed_port resource) ensured

has_resource : HasParent "lab" "vm-1" mapped.store.tables
unfolding find owns_resource
has_resource absent = absurd (cc)

deleted : (delete_port agent (by alice) mapped).0 ≡ ok tt
unfolding delete_port validate ◌>>=◌ on_store on_network statement get_network_resource
    read_network_resource find owns_resource delete_port_of release_resource list_published_ports
    read_published_ports sort_by_guest insert_by_guest select has_owner release_mappings
    release_mapping tolerate delete_published_port drop_published_port maps_guest
    delete_network_resource drop_network_resource delete
deleted = refl

delete_port-IsClear_example :
    IsClear "lab" "vm-1" (delete_port agent (by alice) mapped).1.store.tables
delete_port-IsClear_example = delete_port-IsClear agent (by alice) mapped has_resource deleted

foreign_node-IsDenied_example :
    IsDenied mapped (delete_port agent (by bob) mapped)
    × IsDenied mapped (publish_port agent (by bob) 80 0 mapped)
    × IsDenied mapped (release_port agent (by bob) 80 0 mapped)
    × IsDenied mapped (allocate_ip agent (by bob) mapped)
    × IsDenied mapped (release_ip agent (by bob) "10.0.0.2" mapped)
unfolding find owns_resource
foreign_node-IsDenied_example =
    foreign_node-IsDenied agent (by bob) mapped resource refl refl 80 0 "10.0.0.2"

-- The port's name, asked for by another VM of the installation.
abbrev carol : Owner
carol = record { installation_id = "lab"; node_id = "node-1"; uid = "vm-2" }

ensure_port-IsDenied_example : IsDenied mapped (ensure_port agent (by carol) port_request mapped)
unfolding find holds_port
ensure_port-IsDenied_example =
    ensure_port-IsDenied agent (by carol) port_request mapped resource refl refl
