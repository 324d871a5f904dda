-- ===== src/Inventory/Resources.antt =====
-- internal/agent/inventory/inventory.go: network resources, published ports and VMs.
use cluster_api_hypervisor.Common.{
  ℕ, String, Bool, not, ◌&&◌, ◌||◌, Option, none, some, List, [], ◌∷◌, ◌++◌, ◌==◌, eqb, leb,
  if◌then◌else◌, find, exists_row, select, update, delete,
}
use cluster_api_hypervisor.Exec.{Result, ok, err, database, no_rows, Exec}
use cluster_api_hypervisor.Inventory.{
  Vm, NetworkResource, PublishedPort, Tables, Store, Query, statement,
}

-- QueryRow(...).Scan
abbrev pub scan {ℓ} : {R : Type ℓ} → Option R → Result R
scan none = err no_rows
scan (some r) = ok r

-- The key columns of network_resources: the primary key, and the UNIQUE columns.
unfoldable pub owns_resource : String → String → NetworkResource → Bool
owns_resource i u r = r.installation_id == i && r.owner_uid == u

unfoldable pub holds_port : String → String → NetworkResource → Bool
holds_port i p r = r.installation_id == i && r.port == p

abbrev pub is_other_holder : NetworkResource → NetworkResource → Bool
is_other_holder r row =
    holds_port r.installation_id r.port row && not (owns_resource r.installation_id r.owner_uid row)

-- upsert_network_resource.sql: the conflict clause names the primary key, so a port that another
-- row holds is an error.
upsert_resource_rows : NetworkResource → List NetworkResource → List NetworkResource
upsert_resource_rows r rows =
    if exists_row (owns_resource r.installation_id r.owner_uid) rows
    then update (owns_resource r.installation_id r.owner_uid) (λ _. r) rows
    else rows ++ r ∷ []

unfoldable pub put_network_resource : NetworkResource → Query (Unit {0})
unfolding upsert_resource_rows
put_network_resource r t =
    if exists_row (is_other_holder r) t.networks
    then (err database, t)
    else (ok tt, record t { networks = upsert_resource_rows r t.networks })

-- UpsertNetworkResource
unfoldable pub upsert_network_resource : NetworkResource → Exec Store (Unit {0})
upsert_network_resource r = statement (put_network_resource r)

unfoldable pub read_network_resource : String → String → Query NetworkResource
read_network_resource i u t = (scan (find (owns_resource i u) t.networks), t)

-- GetNetworkResource
unfoldable pub get_network_resource : String → String → Exec Store NetworkResource
get_network_resource i u = statement (read_network_resource i u)

unfoldable pub read_resource_by_port : String → String → Query NetworkResource
read_resource_by_port i p t = (scan (find (holds_port i p) t.networks), t)

-- GetNetworkResourceByPort
unfoldable pub get_network_resource_by_port : String → String → Exec Store NetworkResource
get_network_resource_by_port i p = statement (read_resource_by_port i p)

unfoldable pub has_owner : String → String → PublishedPort → Bool
has_owner i u p = p.installation_id == i && p.owner_uid == u

unfoldable pub maps_guest : String → String → ℕ → PublishedPort → Bool
maps_guest i u g p = has_owner i u p && eqb p.guest_port g

-- delete_network_resource.sql; ON DELETE CASCADE runs where foreign keys are enforced.
unfoldable pub drop_network_resource : Bool → String → String → Query (Unit {0})
drop_network_resource enforced i u t = (
  ok tt,
  record t {
    networks = delete (owns_resource i u) t.networks;
    ports = (if enforced then delete (has_owner i u) t.ports else t.ports);
  },
)

-- DeleteNetworkResource
unfoldable pub delete_network_resource : String → String → Exec Store (Unit {0})
delete_network_resource i u s = statement (drop_network_resource s.foreign_keys i u) s

-- CHECK(... BETWEEN 1 AND 65535)
unfoldable pub is_port_number : ℕ → Bool
is_port_number n = leb 1 n && leb n 65535

abbrev pub is_other_mapping : PublishedPort → PublishedPort → Bool
is_other_mapping p row =
    eqb row.host_port p.host_port && not (maps_guest p.installation_id p.owner_uid p.guest_port row)

abbrev pub has_parent : PublishedPort → Tables → Bool
has_parent p t = exists_row (owns_resource p.installation_id p.owner_uid) t.networks

abbrev pub set_host_port : ℕ → PublishedPort → PublishedPort
set_host_port n row = record row { host_port = n }

-- upsert_published_port.sql, with the CHECK, UNIQUE and FOREIGN KEY constraints of the table
unfoldable pub put_published_port : Bool → PublishedPort → Query (Unit {0})
put_published_port enforced p t =
    if not (is_port_number p.guest_port && is_port_number p.host_port)
      || exists_row (is_other_mapping p) t.ports
    then (err database, t)
    else if exists_row (maps_guest p.installation_id p.owner_uid p.guest_port) t.ports
    then (
      ok tt,
      record t {
        ports =
            update (maps_guest p.installation_id p.owner_uid p.guest_port)
              (set_host_port p.host_port) t.ports;
      },
    )
    else if enforced && not (has_parent p t)
    then (err database, t)
    else (ok tt, record t { ports = t.ports ++ p ∷ [] })

-- UpsertPublishedPort
unfoldable pub upsert_published_port : PublishedPort → Exec Store (Unit {0})
upsert_published_port p s = statement (put_published_port s.foreign_keys p) s

unfoldable pub read_published_port : String → String → ℕ → Query PublishedPort
read_published_port i u g t = (scan (find (maps_guest i u g) t.ports), t)

-- GetPublishedPort
unfoldable pub get_published_port : String → String → ℕ → Exec Store PublishedPort
get_published_port i u g = statement (read_published_port i u g)

-- ORDER BY guest_port ASC
unfoldable pub insert_by_guest : PublishedPort → List PublishedPort → List PublishedPort
insert_by_guest p [] = p ∷ []
insert_by_guest p (q ∷ qs) =
    let further = q ∷ insert_by_guest p qs in
    if leb p.guest_port q.guest_port then p ∷ q ∷ qs else further

unfoldable pub sort_by_guest : List PublishedPort → List PublishedPort
sort_by_guest [] = []
sort_by_guest (p ∷ ps) = insert_by_guest p (sort_by_guest ps)

unfoldable pub read_published_ports : String → String → Query (List PublishedPort)
read_published_ports i u t = (ok (sort_by_guest (select (has_owner i u) t.ports)), t)

-- ListPublishedPorts
unfoldable pub list_published_ports : String → String → Exec Store (List PublishedPort)
list_published_ports i u = statement (read_published_ports i u)

unfoldable pub drop_published_port : String → String → ℕ → Query (Unit {0})
drop_published_port i u g t = (ok tt, record t { ports = delete (maps_guest i u g) t.ports })

-- DeletePublishedPort
unfoldable pub delete_published_port : String → String → ℕ → Exec Store (Unit {0})
delete_published_port i u g = statement (drop_published_port i u g)

unfoldable pub has_vm_key : String → String → Vm → Bool
has_vm_key i u v = v.installation_id == i && v.owner_uid == u

abbrev pub is_other_unit : Vm → Vm → Bool
is_other_unit v row =
    row.installation_id == v.installation_id
    && row.unit == v.unit
    && not (has_vm_key v.installation_id v.owner_uid row)

-- upsert_vm.sql: a unit name that another VM of the installation has is an error.
unfoldable pub put_vm : Vm → Query (Unit {0})
put_vm v t =
    if exists_row (is_other_unit v) t.vms
    then (err database, t)
    else if exists_row (has_vm_key v.installation_id v.owner_uid) t.vms
    then (
      ok tt,
      record t { vms = update (has_vm_key v.installation_id v.owner_uid) (λ _. v) t.vms },
    )
    else (ok tt, record t { vms = t.vms ++ v ∷ [] })

-- UpsertVM
unfoldable pub upsert_vm : Vm → Exec Store (Unit {0})
upsert_vm v = statement (put_vm v)

unfoldable pub read_vm : String → String → Query Vm
read_vm i u t = (scan (find (has_vm_key i u) t.vms), t)

-- GetVM
unfoldable pub get_vm : String → String → Exec Store Vm
get_vm i u = statement (read_vm i u)

unfoldable pub drop_vm : String → String → Query (Unit {0})
drop_vm i u t = (ok tt, record t { vms = delete (has_vm_key i u) t.vms })

-- DeleteVM
unfoldable pub delete_vm : String → String → Exec Store (Unit {0})
delete_vm i u = statement (drop_vm i u)
