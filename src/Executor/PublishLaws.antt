-- ===== src/Executor/PublishLaws.antt =====
-- What a successful PublishPort of internal/agent/executor/executor.go leaves behind.
use cluster_api_hypervisor.Common.{
  ℕ, String, Bool, true, false, not, ◌||◌, ◌==◌, ◌≡◌, ◌⊎◌, inl, inr, refl, sym, subst, ap, some,
  Option, none, List, [], ◌∷◌, find, eqb, ltb,
}
use cluster_api_hypervisor.Common.Int.{ℤ, to_ℕ}
use cluster_api_hypervisor.Exec.{
  Error, Result, ok, err, Exec, attempt, conflict, invalid_request, unauthorized, unavailable,
}
use cluster_api_hypervisor.Exec.Rules.{Moves}
use cluster_api_hypervisor.Exec.Triple.{
  Triple, OnOk, Triple-pure, Triple-raise, Triple-lift, Triple-if, Triple-bind, Triple-attempt,
  Triple-weaken, Triple-reading, Triple-both,
}
use cluster_api_hypervisor.HostAgent.{Mutation}
use cluster_api_hypervisor.Inventory.{
  OperationState, intent, completed, failed, Operation, NetworkResource, PublishedPort, Tables,
  Store, run_with, statement,
}
use cluster_api_hypervisor.Inventory.Steps.{OnTables, Triple-statement}
use cluster_api_hypervisor.Inventory.Journal.{at_key_of, same_request}
use cluster_api_hypervisor.Inventory.JournalPosts.{IsStored, begin_operation-post}
use cluster_api_hypervisor.Inventory.JournalSteps.{
  SameOthers, begin_operation-SameOthers, complete_operation-SameOthers,
}
use cluster_api_hypervisor.Inventory.Resources.{
  scan, get_network_resource, maps_guest, read_published_port, get_published_port,
  upsert_published_port, put_published_port,
}
use cluster_api_hypervisor.Inventory.ResourceLaws.{host_of, put_published_port-maps}
use cluster_api_hypervisor.Executor.{Executor, World, on_store, is_no_rows}
use cluster_api_hypervisor.Executor.Journal.{operation_of, journal_error, begin, complete}
use cluster_api_hypervisor.Executor.Triples.{tables_of, Triple-on_store}
use cluster_api_hypervisor.Executor.Publishing.{
  mapping_of, fail_operation, after_mapping, after_publish, publish_by, publish_unmapped,
  publish_port,
}

-- A completed journal entry of the request.
pub record IsCompleted (op row : Operation) (t : Tables) : Type 0 where
  pub recorded : find (at_key_of op) t.journal ≡ some row
  pub same : same_request row op ≡ true
  pub done : row.state ≡ completed

-- An action that leaves the published ports alone keeps what is said of them.
Triple-SameOthers :
    {A : Type 0} (Q : List PublishedPort → Type 0) (m : Exec Store A)
    → Moves (OnTables SameOthers) m
    → Triple (λ s. Q s.ports) m (λ _ s. Q s.ports)
Triple-SameOthers Q m k = record {
  at = λ s h a e. subst Q (sym (k.at s).tables_moved.same_ports) h;
}

-- What the lookup of a mapping says of the table.
abbrev AfterLookup : String → String → ℕ → Result PublishedPort → Tables → Type 0
AfterLookup i u g (ok p) t = find (maps_guest i u g) t.ports ≡ some p
AfterLookup i u g (err x) t = is_no_rows x ≡ true → find (maps_guest i u g) t.ports ≡ none

scan-AfterLookup :
    (i u : String) (g : ℕ) (t : Tables) (o : Option PublishedPort)
    → find (maps_guest i u g) t.ports ≡ o
    → AfterLookup i u g (scan o) t
scan-AfterLookup i u g t none h = λ _. h
scan-AfterLookup i u g t (some p) h = h

run-AfterLookup :
    (i u : String) (g : ℕ) (faults : List Bool) (s : Store)
    → AfterLookup i u g
        (run_with faults (read_published_port i u g) s).0
        (run_with faults (read_published_port i u g) s).1.tables
unfolding read_published_port is_no_rows
run-AfterLookup i u g [] s = scan-AfterLookup i u g s.tables _ refl
run-AfterLookup i u g (true ∷ later) s = λ e. absurd (cc)
run-AfterLookup i u g (false ∷ later) s = scan-AfterLookup i u g s.tables _ refl

upsert_port-post :
    (p : PublishedPort)
    → Triple
        (λ s. Unit)
        (upsert_published_port p)
        (λ _ s.
          host_of (find (maps_guest p.installation_id p.owner_uid p.guest_port) s.ports)
          ≡ some p.host_port)
unfolding upsert_published_port
upsert_port-post p = Triple-reading _ λ s.
    Triple-statement (put_published_port s.foreign_keys p) (λ _. Unit)
      (λ _ t.
        host_of (find (maps_guest p.installation_id p.owner_uid p.guest_port) t.ports)
        ≡ some p.host_port)
      (λ t _ a e. (put_published_port-maps s.foreign_keys p t a e).0)

module _ {N H : Type 0} (e : Executor N H) (m : Mutation) (guest : ℕ) where
  -- The request of PublishPort as the journal knows it.
  abbrev pub request : Operation
  request = operation_of m "PublishPort" (e.operation_hash "PublishPort" m (guest ∷ []))

  abbrev pub mapping_in : Tables → Option PublishedPort
  mapping_in t = find (maps_guest m.owner.installation_id m.owner.uid guest) t.ports

  -- The inventory maps the guest port to `n`.
  abbrev pub IsMapped : ℕ → Tables → Type 0
  IsMapped n t = host_of (mapping_in t) ≡ some n

  -- There is no mapping, and the journal has the same request as completed with result `n`.
  pub record IsReplay (n : ℕ) (t : Tables) : Type 0 where
    pub row : Operation
    pub unmapped : mapping_in t ≡ none
    pub entry : IsCompleted request row t
    pub decoded : e.decode_port row.result ≡ ok n

  abbrev pub IsPublished : ℕ → Tables → Type 0
  IsPublished n t = IsMapped n t ⊎ IsReplay n t

  lookup-post :
      Triple
        (λ (w : World N H). Unit)
        (attempt (on_store (get_published_port m.owner.installation_id m.owner.uid guest)))
        (λ r w. AfterLookup m.owner.installation_id m.owner.uid guest r (tables_of w))
  unfolding attempt on_store get_published_port statement
  lookup-post = record {
    at = λ w h r x.
        subst
          (λ y.
            OnOk (λ z w'. AfterLookup m.owner.installation_id m.owner.uid guest z (tables_of w')) y
              (attempt (on_store (get_published_port m.owner.installation_id m.owner.uid guest))
                w).1)
          x (run-AfterLookup m.owner.installation_id m.owner.uid guest w.store.faults w.store);
  }

  fail_operation-post :
      (P : World N H → Type 0) (Q : ℕ → World N H → Type 0) (op : Operation) (x : Error)
      → Triple P (fail_operation e m "PublishPort" op x) Q
  unfolding fail_operation
  fail_operation-post P Q op x =
      Triple-bind (λ _ _. Unit) _ _ (record { at = λ _ _ _ _. tt }) (λ _. Triple-raise x)

  after_mapping-post :
      (n : ℕ) (op : Operation) (r : Result (Unit {0}))
      → Triple
          (λ w. OnOk (λ _ w'. IsMapped n (tables_of w')) r w)
          (after_mapping e m n op r)
          (λ a w. IsMapped a (tables_of w))
  unfolding after_mapping complete
  after_mapping-post n op (ok _) =
      Triple-bind (λ _ w. IsMapped n (tables_of w)) _ _
        (Triple-on_store _ _ _ (
          Triple-SameOthers
            (λ ports.
              host_of (find (maps_guest m.owner.installation_id m.owner.uid guest) ports) ≡ some n)
            _ (complete_operation-SameOthers _ _ _ _)))
        (λ _. Triple-pure n (λ w h. h))
  after_mapping-post n op (err x) = fail_operation-post _ _ op x

  after_publish-post :
      (op : Operation) (r : Result ℤ)
      → Triple
          (λ (w : World N H). Unit)
          (after_publish e m guest op r)
          (λ a w. IsMapped a (tables_of w))
  unfolding after_publish
  after_publish-post op (ok n) =
      Triple-if _ _ _ (λ _. fail_operation-post _ _ op invalid_request)
        λ _.
          Triple-bind _ _ _
            (Triple-attempt _
              (Triple-on_store (λ _. Unit) _ _ (upsert_port-post (mapping_of m guest (to_ℕ n)))))
            (λ r. after_mapping-post (to_ℕ n) op r)
  after_publish-post op (err x) = fail_operation-post _ _ op x

  journal_error-post :
      (r : Result (Operation × Bool))
      → Triple
          (λ (w : World N H).
            OnOk
              (λ begun w'.
                IsStored request begun.0 (tables_of w') × (mapping_in (tables_of w') ≡ none))
              r
              w)
          (journal_error r)
          (λ row w. IsStored request row (tables_of w) × (mapping_in (tables_of w) ≡ none))
  unfolding journal_error
  journal_error-post (ok begun) = Triple-pure _ (λ w h. h)
  journal_error-post (err x) = Triple-if _ _ _ (λ _. Triple-raise conflict) (λ _. Triple-raise x)

  begin-post :
      Triple
        (λ (w : World N H). mapping_in (tables_of w) ≡ none)
        (begin e m "PublishPort" (guest ∷ []))
        (λ row w. IsStored request row (tables_of w) × (mapping_in (tables_of w) ≡ none))
  unfolding begin
  begin-post =
      Triple-weaken (λ w. Unit × (mapping_in (tables_of w) ≡ none)) _ (λ w h. (tt, h))
        (Triple-bind _ _ _
          (Triple-attempt _ (
            Triple-on_store (λ s. Unit × (mapping_in s.tables ≡ none)) _ _
              (Triple-both _ (begin_operation-post request) (
                Triple-SameOthers
                  (λ ports.
                    find (maps_guest m.owner.installation_id m.owner.uid guest) ports ≡ none)
                  _ (begin_operation-SameOthers request)))))
          (λ r. journal_error-post r))

  publish_by-post :
      (st : OperationState) (resource : NetworkResource) (op : Operation)
      → op.state ≡ st
      → Triple
          (λ (w : World N H). IsStored request op (tables_of w) × (mapping_in (tables_of w) ≡ none))
          (publish_by e st m resource guest op)
          (λ n w. IsPublished n (tables_of w))
  unfolding publish_by
  publish_by-post completed resource op h = Triple-lift _ (λ n d w p. inr (record {
    row = op;
    unmapped = p.1;
    entry = record { recorded = p.0.0; same = p.0.1; done = h };
    decoded = d;
  }))
  publish_by-post failed resource op h = Triple-raise unavailable
  publish_by-post intent resource op h =
      Triple-bind (λ _ _. Unit) _ _ (record { at = λ _ _ _ _. tt })
        (λ r. mapped (after_publish-post op r))
    where
      mapped :
          {x : Exec (World N H) ℕ}
          → Triple (λ w. Unit) x (λ n w. IsMapped n (tables_of w))
          → Triple (λ w. Unit) x (λ n w. IsPublished n (tables_of w))
      mapped k = record { at = λ w p n d. inl (k.at w p n d) }

  publish_unmapped-post :
      (resource : NetworkResource) (r : Result PublishedPort)
      → Triple
          (λ (w : World N H). AfterLookup m.owner.installation_id m.owner.uid guest r (tables_of w))
          (publish_unmapped e m resource guest r)
          (λ n w. IsPublished n (tables_of w))
  unfolding publish_unmapped
  publish_unmapped-post resource (ok p) = Triple-pure _ (λ w h. inl (ap host_of h))
  publish_unmapped-post resource (err x) =
      Triple-if _ _ _
        (λ absent.
          Triple-bind _ _ _
            (Triple-weaken (λ w. mapping_in (tables_of w) ≡ none) _ (λ w h. h absent) begin-post)
            (λ op. publish_by-post op.state resource op refl))
        (λ _. Triple-raise x)

  resource-post :
      Triple
        (λ (w : World N H). Unit)
        (on_store (get_network_resource m.owner.installation_id m.owner.uid))
        (λ _ _. Unit)
  resource-post = record { at = λ _ _ _ _. tt }

  publish_port-post :
      (host : ℕ)
      → Triple
          (λ (w : World N H). Unit)
          (publish_port e m guest host)
          (λ n w. IsPublished n (tables_of w))
  unfolding publish_port
  publish_port-post host =
      Triple-bind (λ _ _. Unit) _ _ (Triple-lift _ (λ _ _ _ _. tt))
        λ _.
          Triple-if
            (eqb guest 0
              || ltb 65535 guest
              || not (eqb host 0)
              || not e.has_network
              || not e.has_store)
            _ _ (λ _. Triple-raise invalid_request)
            λ _.
              Triple-bind (λ _ _. Unit) _ _ resource-post
                λ resource.
                  Triple-if (not (resource.node_id == m.owner.node_id)) _ _
                    (λ _. Triple-raise unauthorized)
                    λ _. Triple-bind _ _ _ lookup-post (λ r. publish_unmapped-post resource r)

  -- When PublishPort returns a host port, the inventory maps the guest port of the caller's UID to it;
  -- or there is no mapping, and the journal holds the same request as completed with that result.
  pub publish_port-IsPublished :
      (host : ℕ) (w : World N H) (n : ℕ)
      → (publish_port e m guest host w).0 ≡ ok n
      → IsPublished n (tables_of (publish_port e m guest host w).1)
  publish_port-IsPublished host w n x = (publish_port-post host).at w tt n x
