-- ===== src/Inventory/ResourceLaws.antt =====
-- What the statements of internal/agent/inventory/inventory.go leave in the tables, by what a later
-- search finds.
use cluster_api_hypervisor.Common.{
  ℕ, String, Bool, true, false, not, ◌&&◌, ◌≡◌, refl, Option, none, some, List, [], ◌∷◌, arith,
  eq_refl, eqb, find, exists_row, select, update, delete, find-append_none, find-none_of_exists,
  ◌∙◌,
}
use cluster_api_hypervisor.Exec.{ok}
use cluster_api_hypervisor.Inventory.{NetworkResource, PublishedPort, Tables}
use cluster_api_hypervisor.Inventory.Resources.{
  owns_resource, holds_port, is_other_holder, put_network_resource, has_owner, maps_guest,
  is_port_number, put_published_port, insert_by_guest, sort_by_guest, set_host_port,
}

holds_own_port : (r : NetworkResource) → holds_port r.installation_id r.port r ≡ true
unfolding holds_port
holds_own_port r = ground (arith, eq_refl r.installation_id, eq_refl r.port)

owns_itself : (r : NetworkResource) → owns_resource r.installation_id r.owner_uid r ≡ true
unfolding owns_resource
owns_itself r = ground (arith, eq_refl r.installation_id, eq_refl r.owner_uid)

-- Where no other owner holds the port, an update of the owner's rows makes it the holder.
find-update_holder :
    (r : NetworkResource) (rows : List NetworkResource)
    → exists_row (is_other_holder r) rows ≡ false
    → exists_row (owns_resource r.installation_id r.owner_uid) rows ≡ true
    → find
        (holds_port r.installation_id r.port)
        (update (owns_resource r.installation_id r.owner_uid) (λ _. r) rows)
      ≡ some r
unfolding find update exists_row
find-update_holder r [] alone owned = ground arith
find-update_holder r (x ∷ rows) alone owned =
    ground (arith, holds_own_port r, find-update_holder r rows)

no_holder :
    (r : NetworkResource) (rows : List NetworkResource)
    → exists_row (is_other_holder r) rows ≡ false
    → exists_row (owns_resource r.installation_id r.owner_uid) rows ≡ false
    → find (holds_port r.installation_id r.port) rows ≡ none
unfolding find exists_row
no_holder r [] alone new = refl
no_holder r (x ∷ rows) alone new = ground (arith, no_holder r rows)

find_one : (r : NetworkResource) → find (holds_port r.installation_id r.port) (r ∷ []) ≡ some r
unfolding find
find_one r = ground (arith, holds_own_port r)

-- After a successful statement of UpsertNetworkResource, a search by the port finds what was
-- written.
pub put_network_resource-holds :
    (r : NetworkResource) (t : Tables) (a : Unit {0})
    → (put_network_resource r t).0 ≡ ok a
    → find (holds_port r.installation_id r.port) (put_network_resource r t).1.networks ≡ some r
unfolding put_network_resource
put_network_resource-holds r t a h = ground (
  arith,
  find-update_holder r t.networks,
  find-append_none (holds_port r.installation_id r.port) t.networks (r ∷ []),
  no_holder r t.networks,
  find_one r,
)

maps_own_guest :
    (p : PublishedPort) → maps_guest p.installation_id p.owner_uid p.guest_port p ≡ true
unfolding maps_guest has_owner
maps_own_guest p = ground (arith, eq_refl p.installation_id, eq_refl p.owner_uid)

-- The host port of a mapping, if there is one.
abbrev pub host_of : Option PublishedPort → Option ℕ
host_of none = none
host_of (some row) = some row.host_port

find-update_guest :
    (p : PublishedPort) (rows : List PublishedPort)
    → exists_row (maps_guest p.installation_id p.owner_uid p.guest_port) rows ≡ true
    → host_of (
        find (maps_guest p.installation_id p.owner_uid p.guest_port) (
          update
            (maps_guest p.installation_id p.owner_uid p.guest_port)
            (set_host_port p.host_port)
            rows))
      ≡ some p.host_port
unfolding find update exists_row maps_guest has_owner
find-update_guest p [] h = absurd (cc)
find-update_guest p (x ∷ rows) h = ground (arith, find-update_guest p rows)

find_one_mapping :
    (p : PublishedPort)
    → find (maps_guest p.installation_id p.owner_uid p.guest_port) (p ∷ []) ≡ some p
unfolding find
find_one_mapping p = ground (arith, maps_own_guest p)

-- After a successful statement of UpsertPublishedPort the guest port is mapped to the host port that was given,
-- which is a port number.
pub put_published_port-maps :
    (enforced : Bool) (p : PublishedPort) (t : Tables) (a : Unit {0})
    → (put_published_port enforced p t).0 ≡ ok a
    → (host_of (
          find
            (maps_guest p.installation_id p.owner_uid p.guest_port)
            (put_published_port enforced p t).1.ports)
        ≡ some p.host_port)
      × (is_port_number p.host_port ≡ true)
unfolding put_published_port
put_published_port-maps enforced p t a h = ground (
  arith,
  find-update_guest p t.ports,
  find-append_none (maps_guest p.installation_id p.owner_uid p.guest_port) t.ports (p ∷ []),
  find-none_of_exists (maps_guest p.installation_id p.owner_uid p.guest_port) t.ports,
  find_one_mapping p,
)

-- The guest ports of a list of mappings.
abbrev pub lists_guest : List PublishedPort → PublishedPort → Bool
lists_guest ps row = exists_row (λ p. eqb p.guest_port row.guest_port) ps

-- A mapping of the owner whose guest port is not in the list.
abbrev pub is_left : String → String → List PublishedPort → PublishedPort → Bool
is_left i u ps row = has_owner i u row && not (lists_guest ps row)

lists_guest-insert :
    (p : PublishedPort) (ps : List PublishedPort) (row : PublishedPort)
    → lists_guest (insert_by_guest p ps) row ≡ lists_guest (p ∷ ps) row
unfolding insert_by_guest exists_row
lists_guest-insert p [] row = refl
lists_guest-insert p (q ∷ qs) row = ground (arith, lists_guest-insert p qs row)

lists_guest-sort :
    (ps : List PublishedPort) (row : PublishedPort)
    → lists_guest (sort_by_guest ps) row ≡ lists_guest ps row
unfolding sort_by_guest
lists_guest-sort [] row = refl
lists_guest-sort (p ∷ ps) row =
    lists_guest-insert p (sort_by_guest ps) row ∙ step (lists_guest-sort ps row)
  where
    step :
        lists_guest (sort_by_guest ps) row ≡ lists_guest ps row
        → lists_guest (p ∷ sort_by_guest ps) row ≡ lists_guest (p ∷ ps) row
    step e = unfold exists_row in rw e

-- ListPublishedPorts returns every mapping of the owner.
pub select_lists_all :
    (i u : String) (rows more : List PublishedPort)
    → ((row : PublishedPort)
        → lists_guest (select (has_owner i u) rows) row ≡ true
        → lists_guest more row ≡ true)
    → exists_row (is_left i u more) rows ≡ false
unfolding select exists_row
select_lists_all i u [] more h = refl
select_lists_all i u (x ∷ rows) more h =
    let rest = select_lists_all i u rows more (λ row k. h row (ground arith)) in
    ground (arith, h x, rest)

pub list_covers :
    (i u : String) (rows : List PublishedPort)
    → exists_row (is_left i u (sort_by_guest (select (has_owner i u) rows))) rows ≡ false
list_covers i u rows =
    select_lists_all i u rows (sort_by_guest (select (has_owner i u) rows))
      (λ row k. lists_guest-sort (select (has_owner i u) rows) row ∙ k)

-- Deleting a mapping takes its guest port off the list of what is left.
pub delete_left :
    (i u : String) (p : PublishedPort) (ps rows : List PublishedPort)
    → exists_row (is_left i u (p ∷ ps)) rows ≡ false
    → exists_row (is_left i u ps) (delete (maps_guest i u p.guest_port) rows) ≡ false
unfolding exists_row delete maps_guest
delete_left i u p ps [] h = refl
delete_left i u p ps (x ∷ rows) h = ground (arith, delete_left i u p ps rows)

pub none_left :
    (i u : String) (rows : List PublishedPort)
    → exists_row (is_left i u []) rows ≡ false
    → exists_row (has_owner i u) rows ≡ false
unfolding exists_row
none_left i u [] h = refl
none_left i u (x ∷ rows) h = ground (arith, none_left i u rows)

-- Deleting rows leaves no test true that was false.
pub exists_row-delete :
    (p q : PublishedPort → Bool) (rows : List PublishedPort)
    → exists_row p rows ≡ false
    → exists_row p (delete q rows) ≡ false
unfolding exists_row delete
exists_row-delete p q [] h = refl
exists_row-delete p q (x ∷ rows) h = ground (arith, exists_row-delete p q rows)
