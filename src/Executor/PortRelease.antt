-- ===== src/Executor/PortRelease.antt =====
-- What a successful DeletePort of internal/agent/executor/executor.go leaves behind.
use cluster_api_hypervisor.Common.{
  String, Bool, true, false, ◌≡◌, refl, subst, some, Option, none, List, [], ◌∷◌, find, exists_row,
  find-delete_self,
}
use cluster_api_hypervisor.Exec.{Result, ok, err, attempt, unavailable, unauthorized}
use cluster_api_hypervisor.Exec.Triple.{
  Triple, OnOk, Triple-pure, Triple-raise, Triple-lift, Triple-if, Triple-bind,
}
use cluster_api_hypervisor.HostAgent.{Mutation}
use cluster_api_hypervisor.Inventory.{
  NetworkResource, PublishedPort, Tables, Store, run_with, statement,
}
use cluster_api_hypervisor.Inventory.Steps.{Triple-statement}
use cluster_api_hypervisor.Inventory.Resources.{
  scan, owns_resource, has_owner, read_network_resource, get_network_resource,
  delete_network_resource, drop_network_resource, list_published_ports, read_published_ports,
  delete_published_port, drop_published_port,
}
use cluster_api_hypervisor.Inventory.ResourceLaws.{
  is_left, list_covers, delete_left, none_left, exists_row-delete,
}
use cluster_api_hypervisor.Executor.{Executor, World, on_store, is_no_rows}
use cluster_api_hypervisor.Executor.Triples.{
  tables_of, Triple-on_store, Triple-attempt_network, Triple-tolerate,
}
use cluster_api_hypervisor.Executor.Ports.{
  release_mapping, release_mappings, release_resource, delete_port_of, delete_port,
}

-- The inventory has neither a resource nor a published port of the owner.
pub record IsClear (i u : String) (t : Tables) : Type 0 where
  pub no_resource : find (owns_resource i u) t.networks ≡ none
  pub no_ports : exists_row (has_owner i u) t.ports ≡ false

-- A published port has its network resource: the FOREIGN KEY of published_ports, for one owner.
abbrev pub HasParent : String → String → Tables → Type 0
HasParent i u t =
    find (owns_resource i u) t.networks ≡ none → exists_row (has_owner i u) t.ports ≡ false

-- Only mappings of the listed guest ports are left.
abbrev Covers : String → String → List PublishedPort → Tables → Type 0
Covers i u ps t = exists_row (is_left i u ps) t.ports ≡ false

list-post :
    (i u : String) → Triple (λ s. Unit) (list_published_ports i u) (λ ps s. Covers i u ps s.tables)
unfolding list_published_ports read_published_ports
list-post i u =
    Triple-statement (read_published_ports i u) (λ t. Unit) (λ ps t. Covers i u ps t)
      (λ t _ a e. subst (λ ps. Covers i u ps t) (cc) (list_covers i u t.ports))

delete_published-post :
    (i u : String) (p : PublishedPort) (ps : List PublishedPort)
    → Triple
        (λ s. Covers i u (p ∷ ps) s.tables)
        (delete_published_port i u p.guest_port)
        (λ _ s. Covers i u ps s.tables)
unfolding delete_published_port drop_published_port
delete_published-post i u p ps =
    Triple-statement (drop_published_port i u p.guest_port) (Covers i u (p ∷ ps))
      (λ _ t. Covers i u ps t) (λ t h a e. delete_left i u p ps t.ports h)

drop_network-IsClear :
    (enforced : Bool) (i u : String) (t : Tables)
    → Covers i u [] t
    → IsClear i u (drop_network_resource enforced i u t).1
unfolding drop_network_resource
drop_network-IsClear true i u t h = record {
  no_resource = find-delete_self (owns_resource i u) t.networks;
  no_ports = exists_row-delete (has_owner i u) (has_owner i u) t.ports (none_left i u t.ports h);
}
drop_network-IsClear false i u t h = record {
  no_resource = find-delete_self (owns_resource i u) t.networks;
  no_ports = none_left i u t.ports h;
}

delete_network-post :
    (i u : String)
    → Triple
        (λ s. Covers i u [] s.tables)
        (delete_network_resource i u)
        (λ _ s. IsClear i u s.tables)
unfolding delete_network_resource
delete_network-post i u = record {
  at = λ s h.
      (Triple-statement (drop_network_resource s.foreign_keys i u) (Covers i u [])
          (λ _ t. IsClear i u t) (λ t k a e. drop_network-IsClear s.foreign_keys i u t k)).at
        s h;
}

-- When GetNetworkResource finds no row, the owner has neither resource nor ports.
abbrev AfterGet : String → String → Result NetworkResource → Tables → Type 0
AfterGet i u (ok row) t = Unit
AfterGet i u (err x) t = is_no_rows x ≡ true → IsClear i u t

scan-AfterGet :
    (i u : String) (t : Tables) (o : Option NetworkResource)
    → HasParent i u t
    → find (owns_resource i u) t.networks ≡ o
    → AfterGet i u (scan o) t
scan-AfterGet i u t none h e = λ _. record { no_resource = e; no_ports = h e }
scan-AfterGet i u t (some row) h e = tt

run-AfterGet :
    (i u : String) (faults : List Bool) (s : Store)
    → HasParent i u s.tables
    → AfterGet i u
        (run_with faults (read_network_resource i u) s).0
        (run_with faults (read_network_resource i u) s).1.tables
unfolding read_network_resource is_no_rows
run-AfterGet i u [] s h = scan-AfterGet i u s.tables _ h refl
run-AfterGet i u (true ∷ later) s h = λ e. absurd (cc)
run-AfterGet i u (false ∷ later) s h = scan-AfterGet i u s.tables _ h refl

module _ {N H : Type 0} (e : Executor N H) (m : Mutation) where
  abbrev inst : String
  inst = m.owner.installation_id

  abbrev uid : String
  uid = m.owner.uid

  get_network-post :
      Triple
        (λ (w : World N H). HasParent inst uid (tables_of w))
        (attempt (on_store (get_network_resource inst uid)))
        (λ r w. AfterGet inst uid r (tables_of w))
  unfolding attempt on_store get_network_resource statement
  get_network-post = record {
    at = λ w h r x.
        subst
          (λ y.
            OnOk (λ z w'. AfterGet inst uid z (tables_of w')) y
              (attempt (on_store (get_network_resource inst uid)) w).1)
          x (run-AfterGet inst uid w.store.faults w.store h);
  }

  release_mapping-post :
      (row : NetworkResource) (p : PublishedPort) (ps : List PublishedPort)
      → Triple
          (λ (w : World N H). Covers inst uid (p ∷ ps) (tables_of w))
          (release_mapping e m row p)
          (λ _ w. Covers inst uid ps (tables_of w))
  unfolding release_mapping
  release_mapping-post row p ps =
      Triple-bind _ _ _ (Triple-attempt_network (Covers inst uid (p ∷ ps)) _) λ r.
        Triple-bind _ _ _ (Triple-tolerate _ _ r)
          λ _. Triple-on_store _ _ _ (delete_published-post inst uid p ps)

  release_mappings-post :
      (row : NetworkResource) (ps : List PublishedPort)
      → Triple
          (λ (w : World N H). Covers inst uid ps (tables_of w))
          (release_mappings e m row ps)
          (λ _ w. Covers inst uid [] (tables_of w))
  unfolding release_mappings
  release_mappings-post row [] = Triple-pure tt (λ w h. h)
  release_mappings-post row (p ∷ ps) =
      Triple-bind _ _ _ (release_mapping-post row p ps) (λ _. release_mappings-post row ps)

  release_resource-post :
      (row : NetworkResource)
      → Triple
          (λ (w : World N H). Unit)
          (release_resource e m row)
          (λ _ w. IsClear inst uid (tables_of w))
  unfolding release_resource
  release_resource-post row =
      Triple-bind _ _ _ (Triple-on_store (λ _. Unit) _ _ (list-post inst uid)) λ ps.
        Triple-bind _ _ _ (release_mappings-post row ps) λ _.
          Triple-bind _ _ _ (Triple-attempt_network (Covers inst uid []) _) λ a.
            Triple-bind _ _ _ (Triple-tolerate _ _ a) λ _.
              Triple-bind _ _ _ (Triple-attempt_network (Covers inst uid []) _) λ b.
                Triple-bind _ _ _ (Triple-tolerate _ _ b) λ _.
                  Triple-bind _ _ _ (Triple-attempt_network (Covers inst uid []) _) λ c.
                    Triple-bind _ _ _ (Triple-tolerate _ _ c)
                      λ _. Triple-on_store _ _ _ (delete_network-post inst uid)

  delete_port_of-post :
      (r : Result NetworkResource)
      → Triple
          (λ (w : World N H). AfterGet inst uid r (tables_of w))
          (delete_port_of e m r)
          (λ _ w. IsClear inst uid (tables_of w))
  unfolding delete_port_of
  delete_port_of-post (ok row) =
      Triple-if _ _ _ (λ _. release_resource-post row) (λ _. Triple-raise unauthorized)
  delete_port_of-post (err x) =
      Triple-if _ _ _ (λ h. Triple-pure tt (λ w k. k h)) (λ _. Triple-raise x)

  -- After a successful DeletePort the inventory has neither the network resource nor any published
  -- port of the caller's UID, given that the caller's published ports had their resource before. It
  -- holds whether or not SQLite enforces foreign keys, and whatever k8netd answers.
  pub delete_port-IsClear :
      (w : World N H)
      → HasParent inst uid (tables_of w)
      → (delete_port e m w).0 ≡ ok tt
      → IsClear inst uid (tables_of (delete_port e m w).1)
  unfolding delete_port
  delete_port-IsClear w h x = whole.at w h tt x
    where
      whole :
          Triple
            (λ (w : World N H). HasParent inst uid (tables_of w))
            (delete_port e m)
            (λ _ w. IsClear inst uid (tables_of w))
      whole =
          Triple-bind (λ _ w. HasParent inst uid (tables_of w)) _ _ (Triple-lift _ (λ _ _ _ k. k))
            λ _.
              Triple-if _ _ _ (λ _. Triple-raise unavailable)
                λ _. Triple-bind _ _ _ get_network-post (λ r. delete_port_of-post r)
