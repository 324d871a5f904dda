-- ===== src/ControlPlane/Steps.antt =====
-- What one step of the reconcile of controllers/hypervisorcontrolplane_controller.go does to the Machines
-- that it must not touch, and to the snapshot of a recorded replacement.
use cluster_api_hypervisor.Common.{
  String, Bool, true, false, not, ◌&&◌, ◌≡◌, ◌⊎◌, inl, inr, refl, ap, sym, subst, Option, none,
  some, List, [], ◌∷◌, ◌++◌, ◌==◌, arith, eq_iff, find, exists_row, update, delete,
  find-append_some,
}
use cluster_api_hypervisor.Exec.{Exec}
use cluster_api_hypervisor.Exec.Rules.{
  IsPreorder, Moves, Moves-pure, Moves-raise, Moves-lift, Moves-attempt, Moves-if, Moves-bind,
  moves_rules,
}
use cluster_api_hypervisor.ControlPlane.{
  Replacement, Plane, PlaneStatus, Machine, Config, HypervisorMachine, Secret,
}
use cluster_api_hypervisor.ControlPlane.Server.{
  Objects, World, Call, call, run_call, on_outside, write_status, named, mark_machine,
  update_status, create_machine, delete_machine, get_plane, list_clusters, get_hypervisor_cluster,
  get_template, list_machines, get_machine, get_config, create_config, delete_config,
  get_hypervisor_machine, create_hypervisor_machine, delete_hypervisor_machine, get_secret,
  create_secret, update_secret,
}

-- The file of a snapshot is there.
abbrev pub IsFiled : Option Replacement → List (String × String) → Type 0
IsFiled none files = Unit
IsFiled (some r) files = exists_row (λ f. f.0 == r.snapshot_path) files ≡ true

abbrev pub replacement_of : Option Plane → Option Replacement
replacement_of none = none
replacement_of (some p) = p.status.replacement

still-IsFiled :
    (r p q : Option Replacement) (files : List (String × String))
    → (p ≡ q) ⊎ (p ≡ r) ⊎ (p ≡ none)
    → IsFiled r files
    → IsFiled q files
    → IsFiled p files
still-IsFiled r p q files (inl e) h k = subst (λ x. IsFiled x files) (sym e) k
still-IsFiled r p q files (inr (inl e)) h k = subst (λ x. IsFiled x files) (sym e) h
still-IsFiled r p q files (inr (inr e)) h k = subst (λ x. IsFiled x files) (sym e) tt

find-append_machine :
    (m : Machine) (rows : List Machine) (name : String) (k : Machine)
    → find (named name) rows ≡ some k
    → find (named name) (rows ++ m ∷ []) ≡ some k
find-append_machine m rows name k h = find-append_some (named name) rows (m ∷ []) k h

find-delete_other :
    (name other : String) (rows : List Machine) (k : Machine)
    → (other == name) ≡ false
    → find (named name) rows ≡ some k
    → find
        (named name)
        (update (named other) mark_machine (delete (λ m. m.name == other && not m.held) rows))
      ≡ some k
unfolding find update delete
find-delete_other name other [] k d h = h
find-delete_other name other (x ∷ rows) k d h =
    ground (arith, eq_iff x.name other, eq_iff x.name name, find-delete_other name other rows k d)

module _ {S : Type 0} (guarded : String → Bool) (r : Option Replacement) where
  -- The snapshots of the replacement that the reconcile read and of the one that is stored are there.
  pub record HasFiles (w : World S) : Type 0 where
    pub read : IsFiled r w.files
    pub stored : IsFiled (replacement_of w.objects.plane) w.files

  pub record PlaneStep (w v : World S) : Type 0 where
    pub kept :
        (name : String) (m : Machine)
        → guarded name ≡ true
        → find (named name) w.objects.machines ≡ some m
        → find (named name) v.objects.machines ≡ some m
    pub filed : HasFiles w → HasFiles v

  pub plane_order : IsPreorder PlaneStep
  plane_order = record {
    at_rest = λ w. record { kept = λ name m g h. h; filed = λ h. h };
    through = λ u v w h k. record {
      kept = λ name m g x. k.kept name m g (h.kept name m g x);
      filed = λ x. k.filed (h.filed x);
    };
  }

  -- A call that fails, or only reads.
  pub next_call : (w : World S) (faults : List Bool) → PlaneStep w (record w { faults = faults })
  next_call w faults = record {
    kept = λ name m g h. h;
    filed = λ h. record { read = h.read; stored = h.stored };
  }

  module _ {A : Type 0} (c : Call A)
      (machines : (o : Objects) (name : String) (m : Machine)
        → guarded name ≡ true
        → find (named name) o.machines ≡ some m
        → find (named name) (c o).1.machines ≡ some m)
      (plane : (o : Objects)
        → (replacement_of (c o).1.plane ≡ replacement_of o.plane)
          ⊎ (replacement_of (c o).1.plane ≡ r)
          ⊎ (replacement_of (c o).1.plane ≡ none)) where
    after_call :
        (w : World S) (faults : List Bool)
        → PlaneStep w (record w { objects = (c w.objects).1; faults = faults })
    after_call w faults = record {
      kept = λ name m g h. machines w.objects name m g h;
      filed = λ h. record {
        read = h.read;
        stored = still-IsFiled r _ _ w.files (plane w.objects) h.read h.stored;
      };
    }

    run_call-PlaneStep : (faults : List Bool) (w : World S) → PlaneStep w (run_call faults c w).1
    run_call-PlaneStep [] w = after_call w []
    run_call-PlaneStep (true ∷ later) w = next_call w later
    run_call-PlaneStep (false ∷ later) w = after_call w later

    call-PlaneStep : Moves PlaneStep (call c)
    unfolding call
    call-PlaneStep = record { at = λ w. run_call-PlaneStep w.faults w }

  -- A call that leaves the Machines and the control plane alone.
  other_call :
      {A : Type 0} (c : Call A)
      → ((o : Objects) → (c o).1.machines ≡ o.machines)
      → ((o : Objects) → (c o).1.plane ≡ o.plane)
      → Moves PlaneStep (call c)
  other_call c machines plane =
      call-PlaneStep c
        (λ o name m g h. subst (λ ms. find (named name) ms ≡ some m) (sym (machines o)) h)
        (λ o. inl (ap replacement_of (plane o)))

  pub update_status-PlaneStep :
      (status : PlaneStatus)
      → (status.replacement ≡ r) ⊎ (status.replacement ≡ none)
      → Moves PlaneStep (update_status status)
  unfolding update_status
  update_status-PlaneStep status h = call-PlaneStep _ (λ o name m g x. x) (λ o. written o.plane h)
    where
      written :
          (p : Option Plane)
          → (status.replacement ≡ r) ⊎ (status.replacement ≡ none)
          → (replacement_of (write_status status p) ≡ replacement_of p)
            ⊎ (replacement_of (write_status status p) ≡ r)
            ⊎ (replacement_of (write_status status p) ≡ none)
      written none h = inl refl
      written (some p) h = inr h

  pub create_machine-PlaneStep : (m : Machine) → Moves PlaneStep (create_machine m)
  unfolding create_machine
  create_machine-PlaneStep m =
      call-PlaneStep _ (λ o name k g h. ground (arith, find-append_machine m o.machines name k h))
        (λ o. ground arith)

  pub delete_machine-PlaneStep :
      (name : String) → guarded name ≡ false → Moves PlaneStep (delete_machine name)
  unfolding delete_machine
  delete_machine-PlaneStep name free =
      call-PlaneStep _
        (λ o other k g h.
          find-delete_other other name o.machines k (ground (arith, eq_iff name other)) h)
        (λ o. inl refl)

  pub on_outside-PlaneStep : {A : Type 0} (m : Exec S A) → Moves PlaneStep (on_outside m)
  unfolding on_outside
  on_outside-PlaneStep m = record {
    at = λ w. record {
      kept = λ name k g h. h;
      filed = λ h. record { read = h.read; stored = h.stored };
    };
  }

  get_plane-PlaneStep : Moves PlaneStep get_plane
  unfolding get_plane
  get_plane-PlaneStep = other_call _ (λ o. refl) (λ o. refl)

  pub list_clusters-PlaneStep : Moves PlaneStep list_clusters
  unfolding list_clusters
  list_clusters-PlaneStep = other_call _ (λ o. refl) (λ o. refl)

  pub get_hypervisor_cluster-PlaneStep : (x : String) → Moves PlaneStep (get_hypervisor_cluster x)
  unfolding get_hypervisor_cluster
  get_hypervisor_cluster-PlaneStep x = other_call _ (λ o. refl) (λ o. refl)

  pub get_template-PlaneStep : (x : String) → Moves PlaneStep (get_template x)
  unfolding get_template
  get_template-PlaneStep x = other_call _ (λ o. refl) (λ o. refl)

  pub list_machines-PlaneStep : (x : String) → Moves PlaneStep (list_machines x)
  unfolding list_machines
  list_machines-PlaneStep x = other_call _ (λ o. refl) (λ o. refl)

  pub get_machine-PlaneStep : (x : String) → Moves PlaneStep (get_machine x)
  unfolding get_machine
  get_machine-PlaneStep x = other_call _ (λ o. refl) (λ o. refl)

  pub get_config-PlaneStep : (x : String) → Moves PlaneStep (get_config x)
  unfolding get_config
  get_config-PlaneStep x = other_call _ (λ o. refl) (λ o. refl)

  pub create_config-PlaneStep : (x : Config) → Moves PlaneStep (create_config x)
  unfolding create_config
  create_config-PlaneStep x = other_call _ (λ o. ground arith) (λ o. ground arith)

  pub delete_config-PlaneStep : (x : String) → Moves PlaneStep (delete_config x)
  unfolding delete_config
  delete_config-PlaneStep x = other_call _ (λ o. refl) (λ o. refl)

  pub get_hypervisor_machine-PlaneStep : (x : String) → Moves PlaneStep (get_hypervisor_machine x)
  unfolding get_hypervisor_machine
  get_hypervisor_machine-PlaneStep x = other_call _ (λ o. refl) (λ o. refl)

  pub create_hypervisor_machine-PlaneStep :
      (x : HypervisorMachine) → Moves PlaneStep (create_hypervisor_machine x)
  unfolding create_hypervisor_machine
  create_hypervisor_machine-PlaneStep x = other_call _ (λ o. ground arith) (λ o. ground arith)

  pub delete_hypervisor_machine-PlaneStep :
      (x : String) → Moves PlaneStep (delete_hypervisor_machine x)
  unfolding delete_hypervisor_machine
  delete_hypervisor_machine-PlaneStep x = other_call _ (λ o. refl) (λ o. refl)

  pub get_secret-PlaneStep : (x : String) → Moves PlaneStep (get_secret x)
  unfolding get_secret
  get_secret-PlaneStep x = other_call _ (λ o. refl) (λ o. refl)

  pub create_secret-PlaneStep : (x : Secret) → Moves PlaneStep (create_secret x)
  unfolding create_secret
  create_secret-PlaneStep x = other_call _ (λ o. ground arith) (λ o. ground arith)

  pub update_secret-PlaneStep : (x : Secret) → Moves PlaneStep (update_secret x)
  unfolding update_secret
  update_secret-PlaneStep x = other_call _ (λ o. refl) (λ o. refl)

pub ruleset plane_rules = (
  moves_rules, plane_order, on_outside-PlaneStep, list_clusters-PlaneStep,
  get_hypervisor_cluster-PlaneStep, get_template-PlaneStep, list_machines-PlaneStep,
  get_machine-PlaneStep, create_machine-PlaneStep, get_config-PlaneStep, create_config-PlaneStep,
  delete_config-PlaneStep, get_hypervisor_machine-PlaneStep, create_hypervisor_machine-PlaneStep,
  delete_hypervisor_machine-PlaneStep, get_secret-PlaneStep, create_secret-PlaneStep,
  update_secret-PlaneStep,
)
