-- ===== src/ControlPlane/Counts.antt =====
-- The counters of updateScaleStatus of controllers/hypervisorcontrolplane_controller.go.
use cluster_api_hypervisor.Common.{
  ℕ, Bool, false, ◌+◌, ◌≤◌, ◌≡◌, Option, none, some, List, [], ◌∷◌, refl, ◌∙◌, ap, subst, arith,
  length, select, find, ◌==◌,
}
use cluster_api_hypervisor.Exec.{ok}
use cluster_api_hypervisor.Exec.Triple.{Triple, Triple-pure, Triple-bind}
use cluster_api_hypervisor.ControlPlane.{Plane, PlaneStatus, Cluster, Machine, HypervisorMachine}
use cluster_api_hypervisor.ControlPlane.Server.{
  Objects, World, Reconciler, is_control_plane_of, list_machines, get_hypervisor_machine,
  update_status, write_status,
}
use cluster_api_hypervisor.ControlPlane.Kubeconfig.{Triple-call}
use cluster_api_hypervisor.ControlPlane.Machines.{
  ready_count, count_ready, machine_replica_counts, scale_status, update_scale_status,
}

abbrev is_ready : Option HypervisorMachine → Bool
is_ready none = false
is_ready (some h) = h.ready

-- The HypervisorMachine of a Machine's name is there and ready.
abbrev pub is_up : Objects → Machine → Bool
is_up o m = is_ready (find (λ h. h.name == m.name) o.hypervisor_machines)

-- The control-plane Machines of a cluster.
abbrev pub machines_of : Cluster → Objects → List Machine
machines_of c o = select (is_control_plane_of c.name) o.machines

-- The counters of a status are those of the Machines, and the version is the wanted one.
pub record IsCounted (p : Plane) (c : Cluster) (o : Objects) (status : PlaneStatus) : Type 0 where
  pub counts_all : status.replicas ≡ length (machines_of c o)
  pub counts_ready : status.ready_replicas ≡ length (select (is_up o) (machines_of c o))
  pub adds_up : status.ready_replicas + status.unavailable_replicas ≡ status.replicas
  pub all_updated : status.updated_replicas ≡ status.replicas
  pub of_spec : status.version ≡ some p.spec.version
  pub same_replacement : status.replacement ≡ p.status.replacement
  pub same_ready : status.ready ≡ p.status.ready

abbrev with_status : PlaneStatus → Objects → Objects
with_status status o = record o { plane = write_status status o.plane }

length-select : {A : Type 0} (p : A → Bool) (xs : List A) → length (select p xs) ≤ length xs
unfolding select
length-select p [] = omega arith
length-select p (x ∷ xs) = ground (arith, length-select p xs)

module _ {S : Type 0} (e : Reconciler S) (o : Objects) where
  -- The server has not changed.
  abbrev Same : World S → Type 0
  Same w = w.objects ≡ o

  one_more :
      (m : Machine) (ms : List Machine) (h : Option HypervisorMachine) (n : ℕ)
      → h ≡ find (λ x. x.name == m.name) o.hypervisor_machines
      → n ≡ length (select (is_up o) ms)
      → ready_count e h n ≡ length (select (is_up o) (m ∷ ms))
  unfolding select
  one_more m ms none n k q = ground (arith, k, q)
  one_more m ms (some h) n k q = ground (arith, k, q)

  count_ready-post :
      (ms : List Machine)
      → Triple Same (count_ready e ms) (λ n w. Same w × (n ≡ length (select (is_up o) ms)))
  unfolding count_ready get_hypervisor_machine select
  count_ready-post [] = Triple-pure 0 (λ _ h. (h, refl))
  count_ready-post (m ∷ ms) =
      Triple-bind (λ h w. Same w × (h ≡ find (λ x. x.name == m.name) o.hypervisor_machines)) _ _
        (Triple-call (λ x. x ≡ o) _
          (λ h x. (x ≡ o) × (h ≡ find (λ y. y.name == m.name) o.hypervisor_machines))
          (λ x k. (k, ap (λ z. find (λ y. y.name == m.name) z.hypervisor_machines) k)))
        (λ h.
          Triple-bind
            (λ n w.
              (h ≡ find (λ x. x.name == m.name) o.hypervisor_machines)
              × Same w
              × (n ≡ length (select (is_up o) ms)))
            _ _
            (record {
              at = λ w k n x. let r = (count_ready-post ms).at w k.0 n x in (k.1, r.0, r.1);
            })
            (λ n. Triple-pure _ (λ _ k. (k.1, one_more m ms h n k.0 k.2))))

  abbrev Counted : Cluster → ℕ × ℕ → Type 0
  Counted c counts =
      (counts.0 ≡ length (machines_of c o))
      × (counts.1 ≡ length (select (is_up o) (machines_of c o)))

  counts-post :
      (c : Cluster)
      → Triple Same (machine_replica_counts e c) (λ counts w. Same w × Counted c counts)
  unfolding machine_replica_counts list_machines
  counts-post c =
      Triple-bind (λ ms w. Same w × (ms ≡ machines_of c o)) _ _
        (Triple-call (λ x. x ≡ o) _ (λ ms x. (x ≡ o) × (ms ≡ machines_of c o))
          (λ x k. (k, ap (λ z. machines_of c z) k)))
        (λ ms.
          Triple-bind (λ n w. (ms ≡ machines_of c o) × Same w × (n ≡ length (select (is_up o) ms)))
            _ _
            (record {
              at = λ w k n x. let r = (count_ready-post ms).at w k.0 n x in (k.1, r.0, r.1);
            })
            (λ n.
              Triple-pure (length ms, n)
                (λ _ k.
                  (k.1, (ap length k.0, subst (λ x. n ≡ length (select (is_up o) x)) k.0 k.2)))))

  -- The status is on the server, and nothing else there is another.
  abbrev Stored : PlaneStatus → World S → Type 0
  Stored status w = w.objects ≡ with_status status o

  scale-post :
      (p : Plane) (c : Cluster)
      → Triple Same
          (update_scale_status e p c)
          (λ q w. Stored q.status w × IsCounted p c o q.status)
  unfolding update_scale_status scale_status update_status
  scale-post p c = Triple-bind _ _ _ (counts-post c) (λ counts.
      Triple-bind (λ _ w. Stored (scale_status e p counts.0 counts.1) w × Counted c counts) _ _
        (record {
          at = λ w k a x. (
            (Triple-call (λ y. y ≡ o) _
                  (λ _ y. y ≡ with_status (scale_status e p counts.0 counts.1) o)
                  (λ y h. ap (λ z. with_status (scale_status e p counts.0 counts.1) z) h)).at
                w k.0 a x,
            k.1,
          );
        })
        (λ _. Triple-pure _ (λ _ h. (
          h.0,
          record {
            counts_all = h.1.0;
            counts_ready = h.1.1;
            adds_up = omega (arith, h.1.0, h.1.1, length-select (is_up o) (machines_of c o));
            all_updated = refl;
            of_spec = refl;
            same_replacement = refl;
            same_ready = refl;
          },
        ))))

-- What updateScaleStatus leaves: the status of the control plane that the reconcile goes on with is
-- counted, and is the status on the server, of the control plane there.
pub record Scales {S : Type 0} (p : Plane) (c : Cluster) (w v : World S) (q : Plane) : Type 0 where
  pub counted : IsCounted p c w.objects q.status
  pub written :
      (x : Plane)
      → w.objects.plane ≡ some x
      → v.objects.plane ≡ some (record x { status = q.status })
  pub same_machines : v.objects.machines ≡ w.objects.machines

-- After an updateScaleStatus without error, the status on the server, which the reconcile goes on
-- with, has as replicas the number of the listed control-plane Machines of the cluster, as ready
-- replicas the number of those whose HypervisorMachine is there and ready, and as unavailable ones
-- the rest; it has the version of the spec, and keeps the replacement and the readiness.
pub update_scale_status-Scales :
    {S : Type 0} (e : Reconciler S) (p : Plane) (c : Cluster) (w : World S) (q : Plane)
    → (update_scale_status e p c w).0 ≡ ok q
    → Scales p c w (update_scale_status e p c w).1 q
update_scale_status-Scales e p c w q h =
    let (stored, counted) = (scale-post e w.objects p c).at w refl q h in
    record {
      counted = counted;
      written = λ x k. ap (λ o. o.plane) stored ∙ ap (λ y. write_status q.status y) k;
      same_machines = ap (λ o. o.machines) stored;
    }
