-- ===== src/Examples/Admission.antt =====
-- Tests of internal/webhook/hypervisorupgradeplan_webhook.go.
use cluster_api_hypervisor.Common.{
  String, true, false, not, ◌≡◌, refl, some, [], ◌∷◌, arith, ◌==◌, affected, exists_row,
  if◌then◌else◌,
}
use cluster_api_hypervisor.Exec.{ok}
use cluster_api_hypervisor.Upgrade.{
  Phase, unset, completed, Plan, less, same, greater, Semver, terminal,
}
use cluster_api_hypervisor.Upgrade.Webhook.{
  Client, allowed, validate_create, validate_update, validate_plan, validate_cluster_exists,
  validate_active_plan_uniqueness, unique_among, step_errors, last_differs, last_step, is_greater,
  is_same, equal_steps,
}
use cluster_api_hypervisor.Upgrade.WebhookLaws.{
  OneActive, IsWellFormed, validate_create-OneActive, validate_create-IsWellFormed,
  validate_update-keeps_spec,
}

-- Versions of one digit, and an order that knows two of them.
abbrev versions : Semver
versions = record {
  is_valid = λ v. not (v == "");
  compare = λ a b. if a == b then same else if a == "v1" then less else greater;
}

abbrev plan : String → Phase → Plan
plan name phase = record {
  name = name;
  namespace = "default";
  deleting = false;
  has_finalizer = true;
  spec = record { cluster_name = "c1"; to_version = "v2"; steps = "v1" ∷ "v2" ∷ [] };
  status = record {
    phase = phase;
    from_version = "";
    current_step = 0;
    steps = [];
    failure_reason = "";
    failure_message = "";
    conditions = [];
  };
}

abbrev first : Plan
first = plan "first" completed

abbrev second : Plan
second = plan "second" unset

abbrev client : Client
client = record { cluster_exists = λ _. ok true; list_plans = ok (first ∷ []) }

admitted : validate_create versions (some client) second ≡ allowed
unfolding validate_create validate_plan validate_cluster_exists validate_active_plan_uniqueness
    unique_among step_errors last_differs last_step is_greater is_same terminal
admitted = refl

one_active : OneActive (first ∷ [])
unfolding affected terminal
one_active cluster = ground arith

new_name : exists_row (λ q. q.name == "second") (first ∷ []) ≡ false
unfolding exists_row
new_name = refl

validate_create-OneActive_example : OneActive (second ∷ first ∷ [])
validate_create-OneActive_example =
    validate_create-OneActive versions client second (first ∷ []) one_active refl new_name admitted

validate_create-IsWellFormed_example : IsWellFormed versions refl second.spec
validate_create-IsWellFormed_example =
    validate_create-IsWellFormed versions refl (some client) second admitted

updated : validate_update versions (some client) second (plan "second" unset) ≡ allowed
unfolding validate_update validate_plan validate_active_plan_uniqueness unique_among step_errors
    last_differs last_step is_greater is_same terminal equal_steps
updated = refl

validate_update-keeps_spec_example : second.spec ≡ (plan "second" unset).spec
validate_update-keeps_spec_example =
    validate_update-keeps_spec versions (some client) second (plan "second" unset) updated
