-- ===== src/Upgrade/Preflight.antt =====
-- The preflight of controllers/hypervisorupgradeplan_controller.go passes where all that it asks for
-- is there.
use Prim.Native.Nat.{max}
use cluster_api_hypervisor.Common.{
  false, true, ◌≡◌, some, List, [], ◌∷◌, arith, String, refl, ap, ◌∙◌, ◌⊎◌, inl, inr, ℕ, zero, suc,
  ◌≤◌, ◌==◌, length, get_elem?, exists_row,
}
use cluster_api_hypervisor.Exec.{ok, ◌>>=◌}
use cluster_api_hypervisor.Upgrade.{
  Phase, unset, pending, rolling_control_plane, terminal, less, PlanSpec, PlanStatus, Plan,
}
use cluster_api_hypervisor.Upgrade.Versions.{
  resolve_upgrade_steps, initial_steps, contains, missing_image_versions, check_version_advance,
}
use cluster_api_hypervisor.Upgrade.Api.{
  Objects, Cluster, HypervisorCluster, ControlPlane, Api, call, get_plan, get_cluster,
  get_hypervisor_cluster, get_control_plane, update_status,
}
use cluster_api_hypervisor.Upgrade.Reconcile.{
  reconcile, reconcile_plan, reconcile_on, reconcile_phase, begin_plan, begin_with_infrastructure,
  begin_with_control_plane, preflight, start_unless_missing, begun_status, is_advancing,
}
use cluster_api_hypervisor.Upgrade.Calls.{
  Library, requeue, target_cluster, linked_hypervisor_cluster, control_plane_of,
  current_cluster_version,
}
use cluster_api_hypervisor.Upgrade.Edges.{IsReady}
use cluster_api_hypervisor.Upgrade.Edges.{cluster_in, hypervisor_cluster_in, control_plane_in}

-- The server holds the plan with this status, and all else as before.
abbrev pub with_status : Api → Plan → PlanStatus → Api
with_status s p st = record s {
  objects = record s.objects { plan = some (record p { status = st }) };
}

module _ (lib : Library) (p : Plan) (s : Api) (ready : IsReady lib s.objects p.spec)
    (calm : s.faults ≡ []) where
  abbrev running : String
  running = current_cluster_version ready.cluster ready.control_plane

  hc_found : linked_hypervisor_cluster ready.cluster s ≡ (ok (some ready.hypervisor_cluster), s)
  unfolding linked_hypervisor_cluster get_hypervisor_cluster call
  hc_found = ground (arith, ready.infrastructure_found, calm)

  cp_found : control_plane_of ready.cluster s ≡ (ok (some ready.control_plane), s)
  unfolding control_plane_of get_control_plane call
  cp_found = ground (arith, ready.control_plane_found, calm)

  passes :
      s.objects.plan ≡ some p
      → preflight lib p ready.cluster ready.hypervisor_cluster ready.control_plane s
        ≡ (ok requeue, with_status s p (begun_status lib p running))
  unfolding preflight start_unless_missing update_status call ◌>>=◌
  passes held = ground (arith, held, ready.one_replica, ready.advancing, ready.registered, calm)

  begins :
      s.objects.plan ≡ some p
      → begin_plan lib p ready.cluster s
        ≡ (ok requeue, with_status s p (begun_status lib p running))
  unfolding begin_plan begin_with_infrastructure begin_with_control_plane ◌>>=◌
  begins held = rw (hc_found, cp_found) (passes held)

  plan_found : s.objects.plan ≡ some p → get_plan s ≡ (ok (some p), s)
  unfolding get_plan call
  plan_found held = ground (arith, held, calm)

  cluster_found : target_cluster p s ≡ (ok (some ready.cluster), s)
  unfolding target_cluster get_cluster call
  cluster_found = ground (arith, ready.cluster_found, calm)

  phase-begins :
      (ph : Phase)
      → (ph ≡ unset) ⊎ (ph ≡ pending)
      → reconcile_phase lib ph p ready.cluster s ≡ begin_plan lib p ready.cluster s
  unfolding reconcile_phase
  phase-begins ph (inl new) = rw new refl
  phase-begins ph (inr new) = rw new refl

  on-begins :
      s.objects.plan ≡ some p
      → (p.status.phase ≡ unset) ⊎ (p.status.phase ≡ pending)
      → reconcile_on lib p (some ready.cluster) s
        ≡ (ok requeue, with_status s p (begun_status lib p running))
  unfolding reconcile_on
  on-begins held new = phase-begins p.status.phase new ∙ begins held

  is_live : (p.status.phase ≡ unset) ⊎ (p.status.phase ≡ pending) → terminal p.status.phase ≡ false
  unfolding terminal
  is_live (inl new) = rw new
  is_live (inr new) = rw new

  plan-begins :
      s.objects.plan ≡ some p
      → p.deleting ≡ false
      → p.has_finalizer ≡ true
      → (p.status.phase ≡ unset) ⊎ (p.status.phase ≡ pending)
      → reconcile_plan lib (some p) s ≡ (ok requeue, with_status s p (begun_status lib p running))
  unfolding reconcile_plan ◌>>=◌
  plan-begins held there holding new =
      ground (arith, there, is_live new, holding, cluster_found, on-begins held new)

  reconcile-begins :
      s.objects.plan ≡ some p
      → p.deleting ≡ false
      → p.has_finalizer ≡ true
      → (p.status.phase ≡ unset) ⊎ (p.status.phase ≡ pending)
      → reconcile lib s ≡ (ok requeue, with_status s p (begun_status lib p running))
  unfolding reconcile ◌>>=◌
  reconcile-begins held there holding new =
      rw (plan_found held) (plan-begins held there holding new)

-- What a plan needs to begin: its objects are there, the control plane has one replica at most, the
-- target comes after the running version if that is known, and every step has an image.
pub record MayBegin (lib : Library) (o : Objects) (spec : PlanSpec) : Type 0 where
  pub cluster : Cluster
  pub hypervisor_cluster : HypervisorCluster
  pub control_plane : ControlPlane
  pub cluster_found : cluster_in o spec.cluster_name ≡ some cluster
  pub infrastructure_found : hypervisor_cluster_in o cluster ≡ some hypervisor_cluster
  pub control_plane_found : control_plane_in o cluster ≡ some control_plane
  pub at_most_one : control_plane.replicas ≤ 1
  pub ahead :
      ((current_cluster_version cluster control_plane == "") ≡ true)
      ⊎ ((lib.semver.is_valid (current_cluster_version cluster control_plane) ≡ true)
          × (lib.semver.is_valid spec.to_version ≡ true)
          × (lib.semver.compare (current_cluster_version cluster control_plane) spec.to_version
              ≡ less))
  pub has_image :
      (i : ℕ) (v : String)
      → get_elem? (resolve_upgrade_steps spec) i ≡ some v
      → exists_row (λ x. x == v) hypervisor_cluster.image_versions ≡ true

-- The status of a plan that stands at the control plane of its first step, from a running version.
pub record IsAtStart (p : Plan) (from : String) (status : PlanStatus) : Type 0 where
  pub rolling : status.phase ≡ rolling_control_plane
  pub first : status.current_step ≡ 0
  pub since : status.from_version ≡ from
  pub no_reason : status.failure_reason ≡ ""
  pub no_message : status.failure_message ≡ ""
  pub one_entry_each : length status.steps ≡ length (resolve_upgrade_steps p.spec)
  pub entry :
      (i : ℕ) (v : String)
      → get_elem? (resolve_upgrade_steps p.spec) i ≡ some v
      → get_elem? status.steps i ≡ some (record { version = v; phase = rolling_control_plane })

length-initial_steps : (vs : List String) → length (initial_steps vs) ≡ length vs
unfolding initial_steps
length-initial_steps [] = refl
length-initial_steps (v ∷ vs) = ap suc (length-initial_steps vs)

entry-initial_steps :
    (vs : List String) (i : ℕ) (v : String)
    → get_elem? vs i ≡ some v
    → get_elem? (initial_steps vs) i ≡ some (record { version = v; phase = rolling_control_plane })
unfolding initial_steps
entry-initial_steps [] i v h = absurd (cc)
entry-initial_steps (x ∷ vs) zero v h = ground arith
entry-initial_steps (x ∷ vs) (suc i) v h = entry-initial_steps vs i v h

contains_row : (xs : List String) (v : String) → contains xs v ≡ exists_row (λ x. x == v) xs
unfolding contains exists_row
contains_row [] v = refl
contains_row (x ∷ xs) v = ground (arith, contains_row xs v)

none_missing :
    (registered vs : List String)
    → ((i : ℕ) (v : String) → get_elem? vs i ≡ some v → exists_row (λ x. x == v) registered ≡ true)
    → missing_image_versions registered vs ≡ []
unfolding missing_image_versions
none_missing registered [] h = refl
none_missing registered (v ∷ vs) h =
    let rest = none_missing registered vs (λ i w e. h (suc i) w e) in
    ground (arith, contains_row registered v, h 0 v refl, rest)

ahead-advancing :
    (lib : Library) (spec : PlanSpec) (current : String)
    → ((current == "") ≡ true)
      ⊎ ((lib.semver.is_valid current ≡ true)
          × (lib.semver.is_valid spec.to_version ≡ true)
          × (lib.semver.compare current spec.to_version ≡ less))
    → is_advancing lib spec current ≡ true
unfolding is_advancing check_version_advance
ahead-advancing lib spec current (inl h) = ground arith
ahead-advancing lib spec current (inr h) = ground (arith, h.0, h.1)

at_most_one_max : (n : ℕ) → n ≤ 1 → max n 1 ≡ 1
at_most_one_max n h = omega arith

abbrev ready_of :
    (lib : Library) (o : Objects) (spec : PlanSpec) → MayBegin lib o spec → IsReady lib o spec
ready_of lib o spec h = record {
  cluster = h.cluster;
  hypervisor_cluster = h.hypervisor_cluster;
  control_plane = h.control_plane;
  cluster_found = h.cluster_found;
  infrastructure_found = h.infrastructure_found;
  control_plane_found = h.control_plane_found;
  one_replica = at_most_one_max h.control_plane.replicas h.at_most_one;
  advancing = ahead-advancing lib spec _ h.ahead;
  registered =
      none_missing h.hypervisor_cluster.image_versions (resolve_upgrade_steps spec) h.has_image;
}

-- A reconcile that begins a plan: it is asked to come again, and on the server the status of the
-- plan alone is another, that of a plan at its start.
pub record HasBegun (lib : Library) (p : Plan) (s : Api) (from : String) : Type 0 where
  pub status : PlanStatus
  pub ends : reconcile lib s ≡ (ok requeue, with_status s p status)
  pub at_start : IsAtStart p from status

-- A plan that is not being deleted, holds its finalizer and has not begun is begun by one reconcile,
-- if its Cluster, HypervisorCluster and control plane are there, the control plane has at most one
-- replica, the target is a valid version above the running one or the running one is not known,
-- every step has an image, and no call of the API server fails. The plan is then at the control plane
-- of step 0, with one entry for each step, from the running version and without a failure, and
-- nothing else on the server changes. Of the versions only the target is compared with the running
-- one.
pub reconcile-HasBegun :
    (lib : Library) (p : Plan) (s : Api) (may : MayBegin lib s.objects p.spec)
    → s.faults ≡ []
    → s.objects.plan ≡ some p
    → p.deleting ≡ false
    → p.has_finalizer ≡ true
    → (p.status.phase ≡ unset) ⊎ (p.status.phase ≡ pending)
    → HasBegun lib p s (current_cluster_version may.cluster may.control_plane)
reconcile-HasBegun lib p s may calm held there holding new = record {
  status = begun_status lib p (current_cluster_version may.cluster may.control_plane);
  ends = reconcile-begins lib p s (ready_of lib s.objects p.spec may) calm held there holding new;
  at_start = record {
    rolling = refl;
    first = refl;
    since = refl;
    no_reason = refl;
    no_message = refl;
    one_entry_each = length-initial_steps (resolve_upgrade_steps p.spec);
    entry = entry-initial_steps (resolve_upgrade_steps p.spec);
  };
}
