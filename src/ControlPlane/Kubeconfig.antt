-- ===== src/ControlPlane/Kubeconfig.antt =====
-- What ensureKubeconfigSecret of controllers/hypervisorcontrolplane_controller.go leaves in the Secret of the
-- kubeconfig.
use cluster_api_hypervisor.Common.{
  ℕ, String, Bool, true, false, ◌≡◌, refl, subst, Option, none, some, List, [], ◌∷◌, ◌++◌, ◌==◌,
  arith, eq_iff, eq_refl, find, update, exists_row-none, find_sound,
}
use cluster_api_hypervisor.Exec.{ok, ◌>>=◌}
use cluster_api_hypervisor.Exec.Triple.{
  Triple, OnOk, Triple-pure, Triple-lift, Triple-if, Triple-bind, Triple-given,
}
use cluster_api_hypervisor.ControlPlane.{Cluster, HypervisorMachine, Secret}
use cluster_api_hypervisor.ControlPlane.Pki.{ClusterPki, lookup}
use cluster_api_hypervisor.ControlPlane.Server.{
  Objects, World, Reconciler, Call, call, run_call, get_secret, create_secret, update_secret,
  add_secret,
}
use cluster_api_hypervisor.ControlPlane.Versions.{published_host_port}
use cluster_api_hypervisor.ControlPlane.Machines.{set_label}
use cluster_api_hypervisor.ControlPlane.Readiness.{
  value_at, kubeconfig_name, new_kubeconfig_secret, current_secret, is_current, put_kubeconfig,
  ensure_kubeconfig_secret,
}

module _ {S A : Type 0} (P : Objects → Type 0) (c : Call A) (Q : A → Objects → Type 0)
    (k : (o : Objects) → P o → Q (c o).0 (c o).1) where
  run_call-Triple :
      (faults : List Bool) (w : World S)
      → P w.objects
      → OnOk (λ a v. Q a v.objects) (run_call faults c w).0 (run_call faults c w).1
  run_call-Triple [] w p = k w.objects p
  run_call-Triple (true ∷ later) w p = tt
  run_call-Triple (false ∷ later) w p = k w.objects p

  pub Triple-call : Triple (λ (w : World S). P w.objects) (call c) (λ a w. Q a w.objects)
  unfolding call
  Triple-call = record {
    at = λ w p a e.
        subst (λ x. OnOk (λ b v. Q b v.objects) x (run_call w.faults c w).1) e
          (run_call-Triple w.faults w p);
  }

-- The Secret of the cluster's kubeconfig holds a document.
pub record HasKubeconfig (cluster : Cluster) (document : String) (o : Objects) : Type 0 where
  pub secret : Secret
  pub found : find (λ s. s.name == kubeconfig_name cluster) o.secrets ≡ some secret
  pub holds : value_at "value" secret.contents ≡ document

lookup-set_label :
    (key value : String) (labels : List (String × String))
    → lookup key (set_label key value labels) ≡ some value
unfolding lookup set_label
lookup-set_label key value [] = ground (arith, eq_refl key)
lookup-set_label key value (x ∷ labels) =
    ground (arith, eq_refl key, lookup-set_label key value labels)

find-update_secret :
    (name : String) (s v : Secret) (rows : List Secret)
    → v.name ≡ s.name
    → find (λ t. t.name == name) rows ≡ some s
    → find (λ t. t.name == name) (update (λ t. t.name == s.name) (λ _. v) rows) ≡ some v
unfolding find update
find-update_secret name s v [] same h = ground arith
find-update_secret name s v (x ∷ rows) same h = ground (
  arith,
  eq_refl s.name,
  eq_iff x.name name,
  eq_iff x.name s.name,
  find_sound (λ t. t.name == name) rows s,
  eq_iff s.name name,
  eq_iff v.name name,
  find-update_secret name s v rows same,
)

new_secret-found :
    (c : Cluster) (d : String) (rows : List Secret)
    → find (λ s. s.name == kubeconfig_name c) rows ≡ none
    → find (λ s. s.name == kubeconfig_name c) (rows ++ new_kubeconfig_secret c d ∷ [])
      ≡ some (new_kubeconfig_secret c d)
unfolding find new_kubeconfig_secret
new_secret-found c d [] h = ground (arith, eq_refl (kubeconfig_name c))
new_secret-found c d (x ∷ rows) h = ground (arith, new_secret-found c d rows)

module _ {S : Type 0} (e : Reconciler S) where
  -- A HypervisorMachine of the name is there, with a published port of the API server.
  pub record IsPublishing (name : String) (port : ℕ) (o : Objects) : Type 0 where
    pub machine : HypervisorMachine
    pub there : find (λ h. h.name == name) o.hypervisor_machines ≡ some machine
    pub publishes : published_host_port machine.published_ports 6443 ≡ some port

  -- What get_secret of the kubeconfig says.
  abbrev AfterGet : Cluster → Option Secret → Objects → Type 0
  AfterGet c s o = find (λ t. t.name == kubeconfig_name c) o.secrets ≡ s

  module _ (name : String) (port : ℕ) (c : Cluster) (document : String) where
    abbrev pub Ready : Objects → Type 0
    Ready o = IsPublishing name port o × HasKubeconfig c document o

    get-post :
        Triple
          (λ (w : World S). IsPublishing name port w.objects)
          (get_secret (kubeconfig_name c))
          (λ s w. IsPublishing name port w.objects × AfterGet c s w.objects)
    unfolding get_secret
    get-post =
        Triple-call (IsPublishing name port) _ (λ s o. IsPublishing name port o × AfterGet c s o)
          (λ o p. (p, refl))

    added :
        (o : Objects)
        → IsPublishing name port o × AfterGet c none o
        → Ready (add_secret (new_kubeconfig_secret c document) o).1
    unfolding new_kubeconfig_secret lookup
    added o (h, absent) =
        let new = exists_row-none (λ t. t.name == kubeconfig_name c) o.secrets absent in
        (
          record {
            machine = h.machine;
            there = ground (arith, h.there, new);
            publishes = h.publishes;
          },
          record {
            secret = new_kubeconfig_secret c document;
            found = ground (arith, new, new_secret-found c document o.secrets absent);
            holds = refl;
          },
        )

    is_current-holds :
        (s : Secret) → is_current c document s ≡ true → value_at "value" s.contents ≡ document
    unfolding is_current
    is_current-holds s h = ground (arith, eq_iff (value_at "value" s.contents) document)

    updated :
        (s : Secret) (o : Objects)
        → IsPublishing name port o × AfterGet c (some s) o
        → Ready (record o {
          secrets = update (λ t. t.name == s.name) (λ _. current_secret c document s) o.secrets;
        })
    unfolding current_secret
    updated s o (h, found) = (
      record { machine = h.machine; there = h.there; publishes = h.publishes },
      record {
        secret = current_secret c document s;
        found =
            find-update_secret (kubeconfig_name c) s (current_secret c document s) o.secrets refl
              found;
        holds = ground (arith, lookup-set_label "value" document s.contents);
      },
    )

    put-post :
        (s : Option Secret)
        → Triple
            (λ (w : World S). IsPublishing name port w.objects × AfterGet c s w.objects)
            (put_kubeconfig e c document s)
            (λ _ w. Ready w.objects)
    unfolding put_kubeconfig create_secret update_secret new_kubeconfig_secret current_secret
    put-post none =
        Triple-bind (λ _ w. Ready w.objects) _ _
          (Triple-call (λ o. IsPublishing name port o × AfterGet c none o) _ (λ _ o. Ready o) added)
          (λ _. Triple-pure tt (λ w h. h))
    put-post (some s) =
        Triple-if (is_current c document s) _ _
          (λ current.
            Triple-pure tt (λ w p.
              (p.0, record { secret = s; found = p.1; holds = is_current-holds s current })))
          (λ _.
            Triple-call (λ o. IsPublishing name port o × AfterGet c (some s) o) _ (λ _ o. Ready o)
              (updated s))

    document-post :
        Triple
          (λ (w : World S). IsPublishing name port w.objects)
          (get_secret (kubeconfig_name c) >>= λ s. put_kubeconfig e c document s)
          (λ _ w. Ready w.objects)
    document-post = Triple-bind _ _ _ get-post put-post

  -- A document is rendered, and all is as it should be for it.
  pub record IsRendered (name : String) (port : ℕ) (c : Cluster) (url : String) (pk : ClusterPki)
      (o : Objects) : Type 0 where
    pub document : String
    pub rendered : e.render_kubeconfig pk url ≡ ok document
    pub fine : Ready name port c document o

  pub ensure_kubeconfig-post :
      (name : String) (port : ℕ) (c : Cluster) (url : String) (pk : ClusterPki)
      → Triple
          (λ (w : World S). IsPublishing name port w.objects)
          (ensure_kubeconfig_secret e c url pk)
          (λ _ w. IsRendered name port c url pk w.objects)
  unfolding ensure_kubeconfig_secret
  ensure_kubeconfig-post name port c url pk =
      Triple-bind (λ d w. (e.render_kubeconfig pk url ≡ ok d) × IsPublishing name port w.objects) _
        _ (Triple-lift _ (λ d h w p. (h, p)))
        (λ d. Triple-given _ λ h. record {
          at = λ w p a x. record {
            document = d;
            rendered = h;
            fine = (document-post name port c d).at w p a x;
          };
        })
