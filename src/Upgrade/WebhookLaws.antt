-- ===== src/Upgrade/WebhookLaws.antt =====
-- What internal/webhook/hypervisorupgradeplan_webhook.go admits.
use cluster_api_hypervisor.Common.{
  ℕ, zero, suc, ◌≤◌, String, Bool, true, false, not, ◌&&◌, ◌≡◌, refl, sym, subst, Option, none,
  some, List, [], ◌∷◌, ◌==◌, arith, eq_iff, affected, exists_row, get_elem?,
}
use cluster_api_hypervisor.Exec.{ok}
use cluster_api_hypervisor.Upgrade.{terminal, PlanSpec, Plan, Comparison, same, Semver}
use cluster_api_hypervisor.Upgrade.Webhook.{
  allowed, Client, is_greater, step_errors, last_differs, last_step, is_same, validate_plan,
  unique_among, validate_active_plan_uniqueness, validate_cluster_exists, validate_create,
  equal_steps, validate_update,
}

-- A plan that is under way on a cluster.
abbrev pub is_active_on : String → Plan → Bool
is_active_on cluster p = p.spec.cluster_name == cluster && not (terminal p.status.phase)

-- Each cluster of a namespace has at most one active plan.
abbrev pub OneActive : List Plan → Type 0
OneActive plans = (cluster : String) → affected (is_active_on cluster) plans ≤ 1

no_active :
    (plan : Plan) (plans : List Plan)
    → exists_row (λ q. q.name == plan.name) plans ≡ false
    → unique_among plan plans ≡ allowed
    → affected (is_active_on plan.spec.cluster_name) plans ≡ 0
unfolding unique_among exists_row affected
no_active plan [] new h = refl
no_active plan (q ∷ plans) new h = ground (arith, no_active plan plans)

module _ (semver : Semver) (client : Client) (plan : Plan) (plans : List Plan) where
  create_unique :
      client.list_plans ≡ ok plans
      → validate_create semver (some client) plan ≡ allowed
      → unique_among plan plans ≡ allowed
  unfolding validate_create validate_cluster_exists validate_active_plan_uniqueness validate_plan
  create_unique lists h = ground arith

  -- A plan that ValidateCreate allows, with a name that is new in its namespace, leaves each cluster
  -- there with at most one plan that is not terminal.
  pub validate_create-OneActive :
      OneActive plans
      → client.list_plans ≡ ok plans
      → exists_row (λ q. q.name == plan.name) plans ≡ false
      → validate_create semver (some client) plan ≡ allowed
      → OneActive (plan ∷ plans)
  unfolding affected
  validate_create-OneActive one lists new h cluster = ground (
    arith,
    one cluster,
    eq_iff plan.spec.cluster_name cluster,
    no_active plan plans new (create_unique lists h),
  )

equal_steps_sound : (xs ys : List String) → equal_steps xs ys ≡ true → xs ≡ ys
unfolding equal_steps
equal_steps_sound [] [] h = refl
equal_steps_sound [] (y ∷ ys) h = absurd (cc)
equal_steps_sound (x ∷ xs) [] h = absurd (cc)
equal_steps_sound (x ∷ xs) (y ∷ ys) h = ground (arith, eq_iff x y, equal_steps_sound xs ys)

-- An update that ValidateUpdate allows has the spec of the plan that it replaces.
pub validate_update-keeps_spec :
    (semver : Semver) (client : Option Client) (old plan : Plan)
    → validate_update semver client old plan ≡ allowed
    → old.spec ≡ plan.spec
unfolding validate_update
validate_update-keeps_spec semver client old plan h =
    same_spec (ground arith) (ground arith) (ground arith)
  where
    same_spec :
        (old.spec.cluster_name == plan.spec.cluster_name) ≡ true
        → (old.spec.to_version == plan.spec.to_version) ≡ true
        → equal_steps old.spec.steps plan.spec.steps ≡ true
        → old.spec ≡ plan.spec
    same_spec a b c =
        let e = eq_iff old.spec.cluster_name plan.spec.cluster_name in
        let f = eq_iff old.spec.to_version plan.spec.to_version in
        let g = equal_steps_sound old.spec.steps plan.spec.steps c in ground (arith, e, f, g)

module _ (semver : Semver) (no_empty : semver.is_valid "" ≡ false) where
  steps_valid :
      (previous : String) (xs : List String)
      → step_errors semver previous xs ≡ []
      → (i : ℕ) (v : String) → get_elem? xs i ≡ some v
      → semver.is_valid v ≡ true
  unfolding step_errors
  steps_valid previous [] h i v e = absurd (cc)
  steps_valid previous (x ∷ xs) h zero v e = ground arith
  steps_valid previous (x ∷ xs) h (suc i) v e = steps_valid x xs (ground arith) i v e

  next_greater :
      (x y : String) (ys : List String)
      → semver.is_valid x ≡ true
      → step_errors semver x (y ∷ ys) ≡ []
      → is_greater (semver.compare y x) ≡ true
  unfolding step_errors
  next_greater x y ys valid h = ground (arith, eq_iff x "")

  steps_increasing :
      (previous : String) (xs : List String)
      → step_errors semver previous xs ≡ []
      → (i : ℕ) (v w : String) → get_elem? xs i ≡ some v
      → get_elem? xs (suc i) ≡ some w
      → is_greater (semver.compare w v) ≡ true
  unfolding step_errors
  steps_increasing previous [] h i v w e f = absurd (cc)
  steps_increasing previous (x ∷ []) h zero v w e f = absurd (cc)
  steps_increasing previous (x ∷ y ∷ ys) h zero v w e f =
      ground (arith, next_greater x y ys (ground arith) (ground arith))
  steps_increasing previous (x ∷ xs) h (suc i) v w e f =
      steps_increasing x xs (ground arith) i v w e f

  last_is :
      (x : String) (xs : List String) (i : ℕ) (v : String)
      → get_elem? (x ∷ xs) i ≡ some v
      → get_elem? (x ∷ xs) (suc i) ≡ none
      → v ≡ last_step semver x xs
  unfolding last_step
  last_is x [] zero v e f = ground (arith)
  last_is x [] (suc i) v e f = absurd (cc)
  last_is x (y ∷ ys) zero v e f = absurd (cc)
  last_is x (y ∷ ys) (suc i) v e f = last_is y ys i v e f

  same_only : (c : Comparison) → not (is_same c) ≡ false → c ≡ same
  unfolding is_same
  same_only c h = ground arith

  ends :
      (spec : PlanSpec) (xs : List String)
      → last_differs semver spec xs ≡ false
      → (i : ℕ) (v : String) → get_elem? xs i ≡ some v
      → get_elem? xs (suc i) ≡ none
      → semver.compare v spec.to_version ≡ same
  unfolding last_differs
  ends spec [] h i v e f = absurd (cc)
  ends spec (x ∷ xs) h i v e f =
      subst (λ y. semver.compare y spec.to_version ≡ same) (sym (last_is x xs i v e f))
        (same_only (semver.compare (last_step semver x xs) spec.to_version) h)

  -- What the webhook asks of a spec.
  pub record IsWellFormed (spec : PlanSpec) : Type 0 where
    pub named : (spec.cluster_name == "") ≡ false
    pub valid_target : semver.is_valid spec.to_version ≡ true
    pub valid_steps :
        (i : ℕ) (v : String) → get_elem? spec.steps i ≡ some v → semver.is_valid v ≡ true
    pub increasing :
        (i : ℕ) (v w : String)
        → get_elem? spec.steps i ≡ some v
        → get_elem? spec.steps (suc i) ≡ some w
        → is_greater (semver.compare w v) ≡ true
    pub ends_at_target :
        (i : ℕ) (v : String)
        → get_elem? spec.steps i ≡ some v
        → get_elem? spec.steps (suc i) ≡ none
        → semver.compare v spec.to_version ≡ same

  -- Where the empty string is no version: a plan that ValidateCreate allows names a cluster, has a
  -- valid target version, and its steps are valid and strictly increasing, and the last of them is
  -- to semver.Compare the same version as the target, which leaves build metadata out.
  pub validate_create-IsWellFormed :
      (client : Option Client) (plan : Plan)
      → validate_create semver client plan ≡ allowed
      → IsWellFormed plan.spec
  unfolding validate_create validate_plan
  validate_create-IsWellFormed client plan h =
      let steps : step_errors semver "" plan.spec.steps ≡ [] = ground arith in
      record {
        named = ground arith;
        valid_target = ground arith;
        valid_steps = steps_valid "" plan.spec.steps steps;
        increasing = steps_increasing "" plan.spec.steps steps;
        ends_at_target = ends plan.spec plan.spec.steps (ground arith);
      }
