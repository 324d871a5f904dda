-- ===== src/Upgrade/Progress.antt =====
-- Every reconcile of controllers/hypervisorupgradeplan_controller.go moves the status of the plan
-- along an edge, whichever calls of the API server fail.
use cluster_api_hypervisor.Common.{
  inl, ℕ, zero, suc, ◌≤◌, ◌<◌, String, Bool, true, false, not, ◌≡◌, inl, inr, refl, sym, subst, ◌∙◌,
  List, [], ◌∷◌, Option, none, some, arith, length, get_elem?, leb, ◌==◌, if◌then◌else◌,
}
use cluster_api_hypervisor.Exec.{Exec, pure, ◌>>=◌, ◌>>◌}
use cluster_api_hypervisor.Exec.Ends.{Ends-pure, Ends-raise, Ends-if, Ends-bind, Ends-result}
use cluster_api_hypervisor.Upgrade.{
  Phase, unset, pending, rolling_control_plane, rolling_workers, terminal, Plan,
}
use cluster_api_hypervisor.Upgrade.Versions.{resolve_upgrade_steps}
use cluster_api_hypervisor.Upgrade.Api.{
  Cluster, ControlPlane, Objects, Api, Ends-call, get_plan, update_finalizer, patch_cluster_version,
}
use cluster_api_hypervisor.Upgrade.Reconcile.{
  next_step_status, workers_status, fail_plan, reconcile_delete, patch_topology_version,
  gate_workers, reconcile_control_plane_step, finish_step, reconcile_workers_step, reconcile_step,
  reconcile_current, reconcile_phase, reconcile_on, reconcile_plan, reconcile,
}
use cluster_api_hypervisor.Upgrade.Calls.{
  all_rolled, control_plane_converged, Outcome, Library, done, requeue,
}
use cluster_api_hypervisor.Upgrade.Edges.{
  step_count, has_begun, Edge, IsRolled, Moved, Frame, Frame-start, cluster_in, control_plane_in,
}
use cluster_api_hypervisor.Upgrade.Reads.{
  Frame-Moved, Reads, Ending, Reads-call, then_read, stay, status-Ending, fail-Ending,
}
use cluster_api_hypervisor.Upgrade.Looks.{
  list-Reads, machines-Reads, set_paused-Reads, target-Reads, control_plane-Reads, unpause-Reads,
}
use cluster_api_hypervisor.Upgrade.Begins.{begin-Ending, complete-Ending}

get_elem?-none : (xs : List String) (i : ℕ) → get_elem? xs i ≡ none → length xs ≤ i
get_elem?-none [] i h = omega arith
get_elem?-none (x ∷ xs) zero h = absurd (cc)
get_elem?-none (x ∷ xs) (suc i) h = omega (arith, get_elem?-none xs i h)

get_elem?-some : (xs : List String) (i : ℕ) (x : String) → get_elem? xs i ≡ some x → i < length xs
get_elem?-some [] i x h = absurd (cc)
get_elem?-some (y ∷ xs) zero x h = omega arith
get_elem?-some (y ∷ xs) (suc i) x h = omega (arith, get_elem?-some xs i x h)

module _ (lib : Library) (o : Objects) (p : Plan) (start : o.plan ≡ some p) where
  abbrev EndsWell : Exec Api Outcome → Type 0
  EndsWell m = Ending lib o p start m

  abbrev then_end :
      {A : Type 0} (m : Exec Api A) (f : A → Exec Api Outcome) {Φ : A → Type 0}
      → Reads lib o p start m Φ
      → ((a : A) → Φ a → EndsWell (f a))
      → EndsWell (m >>= f)
  then_end m f {Φ} h k = then_read lib o p start m f Φ h k

  abbrev if_end :
      (b : Bool) (m n : Exec Api Outcome)
      → (b ≡ true → EndsWell m)
      → (b ≡ false → EndsWell n)
      → EndsWell (if b then m else n)
  if_end b m n h k = Ends-if b m n h k

  abbrev fails_with :
      (reason : String) → terminal p.status.phase ≡ false → EndsWell (fail_plan lib p reason)
  fails_with = fail-Ending lib o p start

  gate-Ending :
      (c : Cluster) (step : String) (x : Option ControlPlane)
      → p.status.phase ≡ rolling_control_plane
      → get_elem? (resolve_upgrade_steps p.spec) p.status.current_step ≡ some step
      → cluster_in o p.spec.cluster_name ≡ some c
      → (c.topology_version == step) ≡ true
      → x ≡ control_plane_in o c
      → EndsWell (gate_workers lib p c step x)
  unfolding gate_workers
  gate-Ending c step none ph at_step found asked e = stay lib o p start requeue
  gate-Ending c step (some cp) ph at_step found asked e =
      then_end _ _ (machines-Reads lib o p start c) λ machines seen.
        if_end (control_plane_converged step cp machines) _ _
          (λ good. status-Ending lib o p start (workers_status lib p step) requeue (
            Edge.rolls_workers step ph at_step
              record {
                cluster = c;
                control_plane = cp;
                cluster_found = found;
                control_plane_found = sym e;
                asked = asked;
                converged = subst (λ ms. control_plane_converged step cp ms ≡ true) seen good;
              }
              refl refl refl))
          (λ _. stay lib o p start requeue)

  -- The patch of the topology version ends a reconcile.
  patch_cluster-Ending :
      (name version : String) (r : Outcome)
      → EndsWell (do patch_cluster_version name version; pure r)
  unfolding patch_cluster_version
  patch_cluster-Ending name version r =
      Ends-bind (λ _ s. Moved lib o p s.objects) _ _
        (Ends-call (Frame o) _ (λ _. Moved lib o p) (Moved lib o p)
          (λ t f. record {
            after = p;
            held = inl (f.same_plan ∙ start);
            same_spec = refl;
            edge = Edge.stays refl;
          })
          (Frame-Moved lib o p start))
        (λ _. Ends-pure r (λ s h. h))

  control_plane_step-Ending :
      (c : Cluster) (step : String)
      → p.status.phase ≡ rolling_control_plane
      → get_elem? (resolve_upgrade_steps p.spec) p.status.current_step ≡ some step
      → cluster_in o p.spec.cluster_name ≡ some c
      → EndsWell (reconcile_control_plane_step lib p c step)
  unfolding reconcile_control_plane_step patch_topology_version terminal
  control_plane_step-Ending c step ph at_step found =
      then_end _ _ (set_paused-Reads lib o p start c true) λ _ _.
        if_end (not (c.topology_version == step)) _ _
          (λ _.
            if_end (c.class_name == "") _ _ (λ _. fails_with "TopologyMissing" (rw ph))
              (λ _. patch_cluster-Ending c.name step requeue))
          (λ asked.
            then_end _ _ (control_plane-Reads lib o p start c)
              (λ x h. gate-Ending c step x ph at_step found (ground arith) h))

  finish-Ending :
      (step : String)
      → p.status.phase ≡ rolling_workers
      → get_elem? (resolve_upgrade_steps p.spec) p.status.current_step ≡ some step
      → IsRolled o p.spec step
      → EndsWell (finish_step lib p step)
  unfolding finish_step
  finish-Ending step ph at_step rolled =
      let within =
        get_elem?-some (resolve_upgrade_steps p.spec) p.status.current_step step at_step in
      if_end (leb (step_count p.spec) (suc p.status.current_step)) _ _
        (λ last.
          complete-Ending lib o p start _
            (λ st a b c. Edge.completes step ph at_step (ground arith) rolled a b c))
        (λ more.
          status-Ending lib o p start (next_step_status lib p step) requeue
            (Edge.advances step ph at_step (ground arith) rolled refl refl refl))

  workers_step-Ending :
      (c : Cluster) (step : String)
      → p.status.phase ≡ rolling_workers
      → get_elem? (resolve_upgrade_steps p.spec) p.status.current_step ≡ some step
      → cluster_in o p.spec.cluster_name ≡ some c
      → EndsWell (reconcile_workers_step lib p c step)
  unfolding reconcile_workers_step
  workers_step-Ending c step ph at_step found =
      then_end _ _ (set_paused-Reads lib o p start c false) λ _ _.
        then_end _ _ (list-Reads lib o p start c.name) λ mds seen.
          if_end (all_rolled step mds) _ _
            (λ good.
              finish-Ending step ph at_step
                record { cluster = c; cluster_found = found; rolled = sym (seen step) ∙ good })
            (λ _. stay lib o p start requeue)

  step-Ending :
      (ph : Phase) (c : Cluster) (step : String)
      → p.status.phase ≡ ph
      → get_elem? (resolve_upgrade_steps p.spec) p.status.current_step ≡ some step
      → cluster_in o p.spec.cluster_name ≡ some c
      → EndsWell (reconcile_step lib ph p c step)
  unfolding reconcile_step
  step-Ending rolling_control_plane c step h at_step found =
      control_plane_step-Ending c step h at_step found
  step-Ending rolling_workers c step h at_step found = workers_step-Ending c step h at_step found
  step-Ending _ c step h at_step found = Ends-raise _ (λ s k. Frame-Moved lib o p start s.objects k)

  current-Ending :
      (c : Cluster) (x : Option String)
      → get_elem? (resolve_upgrade_steps p.spec) p.status.current_step ≡ x
      → terminal p.status.phase ≡ false
      → has_begun p.status.phase ≡ true
      → cluster_in o p.spec.cluster_name ≡ some c
      → EndsWell (reconcile_current lib x p c)
  unfolding reconcile_current
  current-Ending c none past live begun found =
      complete-Ending lib o p start p
        (λ st a b _. Edge.completes_past live begun (get_elem?-none _ _ past) a b)
  current-Ending c (some step) at_step live begun found =
      step-Ending p.status.phase c step refl at_step found

  phase-Ending :
      (ph : Phase) (c : Cluster)
      → p.status.phase ≡ ph
      → terminal ph ≡ false
      → cluster_in o p.spec.cluster_name ≡ some c
      → EndsWell (reconcile_phase lib ph p c)
  unfolding reconcile_phase terminal has_begun
  phase-Ending unset c h live found = begin-Ending lib o p start c (rw h) (inl h) found
  phase-Ending pending c h live found = begin-Ending lib o p start c (rw h) (inr h) found
  phase-Ending _ c h live found = current-Ending c _ refl (rw h live) (rw h refl) found

  on-Ending :
      (x : Option Cluster)
      → terminal p.status.phase ≡ false
      → x ≡ cluster_in o p.spec.cluster_name
      → EndsWell (reconcile_on lib p x)
  unfolding reconcile_on
  on-Ending none live e = fails_with "ClusterNotFound" live
  on-Ending (some c) live e = phase-Ending p.status.phase c refl live (sym e)

  -- Update of the finalizer writes neither spec nor status.
  finalizer-Ending : (held : Bool) (r : Outcome) → EndsWell (do update_finalizer held; pure r)
  unfolding update_finalizer
  finalizer-Ending held r =
      Ends-bind (λ _ s. Moved lib o p s.objects) _ _
        (Ends-call (Frame o) _ (λ _. Moved lib o p) (Moved lib o p)
          (λ t f.
            let found : t.plan ≡ some p = f.same_plan ∙ start in
            record {
              after = record p { has_finalizer = held };
              held = ground (arith, found);
              same_spec = refl;
              edge = Edge.stays refl;
            })
          (Frame-Moved lib o p start))
        (λ _. Ends-pure r (λ s h. h))

  delete-Ending : EndsWell (reconcile_delete lib p)
  unfolding reconcile_delete
  delete-Ending =
      then_end _ _ (target-Reads lib o p start p)
        λ c _. then_end _ _ (unpause-Reads lib o p start c) λ _ _. finalizer-Ending false done

  plan-Ending : EndsWell (reconcile_plan lib (some p))
  unfolding reconcile_plan
  plan-Ending =
      if_end p.deleting _ _ (λ _. delete-Ending)
        λ _.
          if_end (terminal p.status.phase) _ _ (λ _. stay lib o p start done)
            λ live.
              if_end (not p.has_finalizer) _ _ (λ _. finalizer-Ending true done)
                λ _. then_end _ _ (target-Reads lib o p start p) (λ x e. on-Ending x live e)

  found-Ending : (x : Option Plan) → x ≡ some p → EndsWell (reconcile_plan lib x)
  found-Ending x e = subst (λ y. EndsWell (reconcile_plan lib y)) (sym e) plan-Ending

  get-Reads : Reads lib o p start get_plan (λ x. x ≡ some p)
  unfolding get_plan
  get-Reads = Reads-call lib o p start _ _ (λ t f. (f.same_plan ∙ start, f))

  reconcile-Ending : EndsWell (reconcile lib)
  unfolding reconcile
  reconcile-Ending = then_end _ _ get-Reads found-Ending

-- One reconcile leaves the plan with the same spec, and its status moves along one edge, whichever
-- calls of the API server fail; only a plan that is being deleted may be gone instead. It stays; or it begins at step 0, when the cluster, its
-- infrastructure and its control plane of one replica are found, the target advances on the running
-- version and every step has an image; or the workers of the current step begin, when the topology
-- asks for the step and the control plane and all its machines have it; or, when every
-- MachineDeployment has rolled out the step, it goes to the next step or, at the last, is Completed;
-- or it names no step of the plan and is Completed; or it fails. A terminal status stays.
pub reconcile-Moved :
    (lib : Library) (p : Plan) (s : Api)
    → s.objects.plan ≡ some p
    → Moved lib s.objects p (reconcile lib s).1.objects
reconcile-Moved lib p s h =
    Ends-result (λ t. Moved lib s.objects p t.objects) _ _
      ((reconcile-Ending lib s.objects p h).at s (Frame-start s.objects))
