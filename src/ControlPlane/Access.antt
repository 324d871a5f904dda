-- ===== src/ControlPlane/Access.antt =====
-- What reconcileReadiness of controllers/hypervisorcontrolplane_controller.go leaves where it has nothing
-- more to wait for.
use cluster_api_hypervisor.Common.{
  ℕ, String, Bool, true, false, ◌≡◌, refl, ap, subst, sym, Option, none, some, ◌==◌, find,
}
use cluster_api_hypervisor.Exec.{Result, ok, err, Exec, pure, attempt}
use cluster_api_hypervisor.Exec.Triple.{
  Triple, Triple-pure, Triple-lift, Triple-if, Triple-bind, Triple-weaken, Triple-given,
}
use cluster_api_hypervisor.ControlPlane.{Plane, Cluster, Machine, HypervisorMachine, Secret}
use cluster_api_hypervisor.ControlPlane.Pki.{ClusterPki, decode_cluster_pki}
use cluster_api_hypervisor.ControlPlane.Server.{
  Objects, World, Reconciler, on_outside, update_status, get_hypervisor_machine, get_secret,
  list_machines,
}
use cluster_api_hypervisor.ControlPlane.Versions.{Outcome, done, requeue, published_host_port}
use cluster_api_hypervisor.ControlPlane.Machines.{pki_secret_name}
use cluster_api_hypervisor.ControlPlane.Readiness.{
  server_url, seed_by, mark_ready, publish_access, healthy_by, when_healthy, access_at, access_by,
  access_from, readiness_of, reconcile_readiness, internal_ip_address, first_machine, cluster_pki,
  decode_secret,
}
use cluster_api_hypervisor.ControlPlane.Kubeconfig.{
  Triple-call, HasKubeconfig, IsPublishing, IsRendered, ensure_kubeconfig-post,
}
use cluster_api_hypervisor.ControlPlane.Counts.{machines_of}
use cluster_api_hypervisor.ControlPlane.First.{IsFirst, first_machine-IsFirst}

module _ {S : Type 0} (e : Reconciler S) where
  -- The PKI in the cluster's PKI Secret.
  pub record IsPki (c : Cluster) (o : Objects) (pk : ClusterPki) : Type 0 where
    pub secret : Secret
    pub found : find (λ s. s.name == pki_secret_name e c) o.secrets ≡ some secret
    pub decoded : decode_cluster_pki secret.contents ≡ ok pk

  -- What a reconcile that read the objects `o` leaves to reach the API server with: the first Machine of
  -- the control plane has a HypervisorMachine that publishes the port 6443, and the Secret of the
  -- kubeconfig holds what is rendered for that port from the PKI of the cluster.
  pub record IsAccessible (c : Cluster) (o : Objects) (w : World S) : Type 0 where
    pub machine : Machine
    pub is_first : IsFirst machine (machines_of c o)
    pub port : ℕ
    pub published_before : IsPublishing e machine.name port o
    pub publishing : IsPublishing e machine.name port w.objects
    pub pki : ClusterPki
    pub of_cluster : IsPki c o pki
    pub document : String
    pub rendered : e.render_kubeconfig pki (server_url e port) ≡ ok document
    pub kubeconfig : HasKubeconfig c document w.objects

  module _ (p : Plane) (c : Cluster) (o : Objects) where
    abbrev Same : World S → Type 0
    Same w = w.objects ≡ o

    abbrev Settled : Outcome → World S → Type 0
    Settled done w = IsAccessible c o w
    Settled requeue w = Unit

    seed-post :
        (Q : Objects → Type 0) (seed : Option (String → String → ClusterPki → Exec S (Unit {0})))
        (url ip : String) (pk : ClusterPki)
        → Triple (λ (w : World S). Q w.objects) (seed_by e seed url ip pk) (λ _ w. Q w.objects)
    unfolding seed_by on_outside
    seed-post Q none url ip pk = Triple-pure tt (λ w h. h)
    seed-post Q (some seed) url ip pk = record { at = λ w h a x. h }

    verdict-post :
        (r : Result (Unit {0}))
        → Triple Same (elim r [ ok _ ↦ pure true | err _ ↦ pure false ]) (λ _ w. Same w)
    verdict-post (ok _) = Triple-pure true (λ w h. h)
    verdict-post (err _) = Triple-pure false (λ w h. h)

    healthy-post :
        (port : ℕ) (pk : ClusterPki) (check : Option (String → ℕ → ClusterPki → Exec S (Unit {0})))
        → Triple Same (healthy_by e check port pk) (λ _ w. Same w)
    unfolding healthy_by on_outside attempt
    healthy-post port pk none = Triple-pure false (λ w h. h)
    healthy-post port pk (some check) =
        Triple-bind (λ _ w. Same w) _ _ (record { at = λ w h a x. h }) verdict-post

    decoded_from :
        (s : Option Secret) (pk : ClusterPki)
        → s ≡ find (λ x. x.name == pki_secret_name e c) o.secrets
        → decode_secret e s ≡ ok pk
        → IsPki c o pk
    unfolding decode_secret
    decoded_from none pk h k = absurd (cc)
    decoded_from (some secret) pk h k = record { secret = secret; found = sym h; decoded = k }

    read_secret-post : Triple Same (cluster_pki e c) (λ pk w. IsPki c o pk × Same w)
    unfolding cluster_pki get_secret
    read_secret-post =
        Triple-bind (λ s w. (s ≡ find (λ x. x.name == pki_secret_name e c) o.secrets) × Same w) _ _
          (Triple-call (λ x. x ≡ o) _
            (λ s x. (s ≡ find (λ y. y.name == pki_secret_name e c) o.secrets) × (x ≡ o))
            (λ x h. (ap (λ z. find (λ y. y.name == pki_secret_name e c) z.secrets) h, h)))
          (λ s. Triple-lift _ (λ pk k _ h. (decoded_from s pk h.0 k, h.1)))

    -- The first Machine and its HypervisorMachine, as they were read.
    module _ (m : Machine) (first : IsFirst m (machines_of c o)) where
      mark-post :
          (port : ℕ) (url : String) (pk : ClusterPki)
          → Triple
              (λ (w : World S). IsRendered e m.name port c url pk w.objects)
              (mark_ready e p)
              (λ _ w. IsRendered e m.name port c url pk w.objects)
      unfolding mark_ready update_status
      mark-post port url pk =
          Triple-if p.status.ready _ _ (λ _. Triple-pure tt (λ w h. h))
            (λ _.
              Triple-call (IsRendered e m.name port c url pk) _
                (λ _ o. IsRendered e m.name port c url pk o)
                (λ o h. record {
                  document = h.document;
                  rendered = h.rendered;
                  fine = (
                    record {
                      machine = h.fine.0.machine;
                      there = h.fine.0.there;
                      publishes = h.fine.0.publishes;
                    },
                    record {
                      secret = h.fine.1.secret;
                      found = h.fine.1.found;
                      holds = h.fine.1.holds;
                    },
                  );
                }))

      publish-post :
          (ip : String) (port : ℕ) (pk : ClusterPki)
          → IsPublishing e m.name port o
          → IsPki c o pk
          → Triple Same (publish_access e p c ip port pk) Settled
      unfolding publish_access
      publish-post ip port pk before of_cluster =
          Triple-weaken (λ w. IsPublishing e m.name port w.objects) _
            (λ w h. subst (IsPublishing e m.name port) (sym h) before)
            (Triple-bind _ _ _ (ensure_kubeconfig-post e m.name port c (server_url e port) pk) (λ _.
              Triple-bind _ _ _
                (seed-post (IsRendered e m.name port c (server_url e port) pk) _ _ ip pk)
                (λ _. Triple-bind _ _ _ (mark-post port (server_url e port) pk) (λ _.
                  Triple-pure done (λ w h. record {
                    machine = m;
                    is_first = first;
                    port = port;
                    published_before = before;
                    publishing = h.fine.0;
                    pki = pk;
                    of_cluster = of_cluster;
                    document = h.document;
                    rendered = h.rendered;
                    kubeconfig = h.fine.1;
                  })))))

      when_healthy-post :
          (healthy : Bool) (ip : String) (port : ℕ) (pk : ClusterPki)
          → IsPublishing e m.name port o
          → IsPki c o pk
          → Triple Same (when_healthy e healthy p c ip port pk) Settled
      unfolding when_healthy
      when_healthy-post true ip port pk before of_cluster =
          publish-post ip port pk before of_cluster
      when_healthy-post false ip port pk before of_cluster = Triple-pure requeue (λ _ _. tt)

      access_at-post :
          (ip : String) (port : ℕ)
          → IsPublishing e m.name port o
          → Triple Same (access_at e p c ip port) Settled
      unfolding access_at
      access_at-post ip port before = Triple-bind _ _ _ read_secret-post (λ pk.
          Triple-given _ (λ of_cluster.
            Triple-bind _ _ _
              (Triple-if p.status.ready _ _ (λ _. Triple-pure true (λ w h. h))
                (λ _. healthy-post port pk e.check_api_server_health))
              (λ healthy. when_healthy-post healthy ip port pk before of_cluster)))

      access_by-post :
          (ip : String) (port : Option ℕ) (h : HypervisorMachine)
          → published_host_port h.published_ports 6443 ≡ port
          → find (λ x. x.name == m.name) o.hypervisor_machines ≡ some h
          → Triple Same (access_by e p c ip port) Settled
      unfolding access_by
      access_by-post ip none h publishes there = Triple-pure requeue (λ _ _. tt)
      access_by-post ip (some port) h publishes there =
          access_at-post ip port (record { machine = h; there = there; publishes = publishes })

      access_from-post :
          (h : Option HypervisorMachine)
          → find (λ x. x.name == m.name) o.hypervisor_machines ≡ h
          → Triple Same (access_from e p c h) Settled
      unfolding access_from
      access_from-post none there = Triple-pure requeue (λ _ _. tt)
      access_from-post (some h) there =
          Triple-if (internal_ip_address h.addresses == "") _ _
            (λ _. Triple-pure requeue (λ _ _. tt)) (λ _. access_by-post _ _ h refl there)

    readiness_of-post :
        (m : Option Machine)
        → first_machine (machines_of c o) ≡ m
        → Triple Same (readiness_of e p c m) Settled
    unfolding readiness_of get_hypervisor_machine
    readiness_of-post none first = Triple-pure requeue (λ _ _. tt)
    readiness_of-post (some m) first =
        Triple-bind (λ h w. (find (λ x. x.name == m.name) o.hypervisor_machines ≡ h) × Same w) _ _
          (Triple-call (λ x. x ≡ o) _
            (λ h x. (find (λ y. y.name == m.name) o.hypervisor_machines ≡ h) × (x ≡ o))
            (λ x k. (ap (λ z. find (λ y. y.name == m.name) z.hypervisor_machines) (sym k), k)))
          (λ h.
            Triple-given _ (λ there.
              access_from-post m (first_machine-IsFirst (machines_of c o) m first) h there))

    reconcile_readiness-post : Triple Same (reconcile_readiness e p c) Settled
    unfolding reconcile_readiness list_machines
    reconcile_readiness-post =
        Triple-bind (λ ms w. (machines_of c o ≡ ms) × Same w) _ _
          (Triple-call (λ x. x ≡ o) _ (λ ms x. (machines_of c o ≡ ms) × (x ≡ o))
            (λ x k. (ap (λ z. machines_of c z) (sym k), k)))
          (λ ms.
            Triple-given _
              (λ listed. readiness_of-post (first_machine ms) (ap first_machine listed)))

  -- Where a reconcileReadiness has nothing more to wait for, the first of the listed control-plane
  -- Machines by name has, before and after, a HypervisorMachine that publishes a host port for the
  -- port 6443, and the Secret of the cluster's kubeconfig then holds the document that is rendered
  -- for the URL of that host port from the PKI that the cluster's PKI Secret holds.
  pub reconcile_readiness-IsAccessible :
      (p : Plane) (c : Cluster) (w : World S)
      → (reconcile_readiness e p c w).0 ≡ ok done
      → IsAccessible c w.objects (reconcile_readiness e p c w).1
  reconcile_readiness-IsAccessible p c w h =
      (reconcile_readiness-post p c w.objects).at w refl done h
