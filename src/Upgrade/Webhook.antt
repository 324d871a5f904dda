-- ===== src/Upgrade/Webhook.antt =====
-- HypervisorUpgradePlanWebhook of internal/webhook/hypervisorupgradeplan_webhook.go: the admission of
-- a plan. An object of another type is refused before, and is not modelled.
use cluster_api_hypervisor.Common.{
  String, Bool, true, false, not, ◌&&◌, ◌||◌, Option, none, some, List, [], ◌∷◌, ◌++◌, ◌==◌,
  if◌then◌else◌,
}
use cluster_api_hypervisor.Exec.{Error, Result, ok, err}
use cluster_api_hypervisor.Upgrade.{terminal, PlanSpec, Plan, Comparison, same, greater, Semver}

-- The entries of a field.ErrorList.
pub data FieldError : Type 0 where
  cluster_name_required : FieldError
  not_semver : String → FieldError
  not_increasing : String → FieldError
  last_step_differs : FieldError
  cluster_not_found : FieldError
  spec_immutable : FieldError

-- What an admission answers: nil, or an error of the API machinery or of the client.
pub data Admission : Type 0 where
  allowed : Admission
  invalid : List FieldError → Admission
  conflicts_with : String → Admission
  client_failed : Error → Admission

-- The answers of the webhook's client for the plan's namespace: whether a Cluster of a name is there,
-- and its plans.
pub record Client : Type 0 where
  pub cluster_exists : String → Result Bool
  pub list_plans : Result (List Plan)

unfoldable pub is_greater : Comparison → Bool
is_greater greater = true
is_greater _ = false

unfoldable pub is_same : Comparison → Bool
is_same same = true
is_same _ = false

module _ (semver : Semver) where
  -- The loop over the steps, from the previous valid one ("" at the start).
  unfoldable pub step_errors : String → List String → List FieldError
  step_errors previous [] = []
  step_errors previous (s ∷ ss) =
      let skipped = step_errors previous ss in
      let later = step_errors s ss in
      if not (semver.is_valid s)
      then not_semver s ∷ skipped
      else if not (previous == "") && not (is_greater (semver.compare s previous))
      then not_increasing s ∷ later
      else later

  unfoldable pub last_step : String → List String → String
  last_step s [] = s
  last_step s (t ∷ ts) = last_step t ts

  -- `len(steps) > 0 && semver.Compare(last, toVersion) != 0`
  unfoldable pub last_differs : PlanSpec → List String → Bool
  last_differs spec [] = false
  last_differs spec (s ∷ ss) = not (is_same (semver.compare (last_step s ss) spec.to_version))

  abbrev name_errors : PlanSpec → List FieldError
  name_errors spec = if spec.cluster_name == "" then cluster_name_required ∷ [] else []

  abbrev target_errors : PlanSpec → List FieldError
  target_errors spec =
      if semver.is_valid spec.to_version then [] else not_semver spec.to_version ∷ []

  abbrev with_last : PlanSpec → List FieldError → List FieldError
  with_last spec [] = if last_differs spec spec.steps then last_step_differs ∷ [] else []
  with_last spec (e ∷ es) = e ∷ es

  -- validateHypervisorUpgradePlan
  unfoldable pub validate_plan : PlanSpec → List FieldError
  unfolding last_differs
  validate_plan spec =
      with_last spec (name_errors spec ++ target_errors spec ++ step_errors "" spec.steps)

-- The loop of validateActivePlanUniqueness
unfoldable pub unique_among : Plan → List Plan → Admission
unique_among plan [] = allowed
unique_among plan (other ∷ others) =
    let later = unique_among plan others in
    if other.name == plan.name || not (other.spec.cluster_name == plan.spec.cluster_name)
    then later
    else if terminal other.status.phase
    then later
    else conflicts_with other.name

abbrev listed : Plan → Result (List Plan) → Admission
listed plan (ok plans) = unique_among plan plans
listed plan (err e) = client_failed e

-- validateActivePlanUniqueness; the client may be nil
unfoldable pub validate_active_plan_uniqueness : Option Client → Plan → Admission
validate_active_plan_uniqueness none plan = allowed
validate_active_plan_uniqueness (some client) plan =
    if plan.spec.cluster_name == "" then allowed else listed plan client.list_plans

abbrev looked_up : Result Bool → Admission
looked_up (ok true) = allowed
looked_up (ok false) = invalid (cluster_not_found ∷ [])
looked_up (err e) = client_failed e

-- validateClusterExists
unfoldable pub validate_cluster_exists : Option Client → Plan → Admission
validate_cluster_exists none plan = allowed
validate_cluster_exists (some client) plan =
    if plan.spec.cluster_name == ""
    then allowed
    else looked_up (client.cluster_exists plan.spec.cluster_name)

-- `if err != nil { return nil, err }`
abbrev and_then : Admission → Admission → Admission
and_then allowed next = next
and_then refused next = refused

abbrev of_errors : List FieldError → Admission
of_errors [] = allowed
of_errors (e ∷ es) = invalid (e ∷ es)

-- ValidateCreate
unfoldable pub validate_create : Semver → Option Client → Plan → Admission
validate_create semver client plan =
    and_then (of_errors (validate_plan semver plan.spec))
      (and_then (validate_cluster_exists client plan) (validate_active_plan_uniqueness client plan))

-- slices.Equal
unfoldable pub equal_steps : List String → List String → Bool
equal_steps [] [] = true
equal_steps (x ∷ xs) (y ∷ ys) = x == y && equal_steps xs ys
equal_steps _ _ = false

-- ValidateUpdate
unfoldable pub validate_update : Semver → Option Client → Plan → Plan → Admission
validate_update semver client old plan = and_then (of_errors (validate_plan semver plan.spec)) (
    if not (old.spec.cluster_name == plan.spec.cluster_name)
      || not (old.spec.to_version == plan.spec.to_version)
      || not (equal_steps old.spec.steps plan.spec.steps)
    then invalid (spec_immutable ∷ [])
    else validate_active_plan_uniqueness client plan)
