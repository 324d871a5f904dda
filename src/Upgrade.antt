-- ===== src/Upgrade.antt =====
-- The Kubernetes upgrade of a cluster: the HypervisorUpgradePlan of
-- api/controlplane/v1alpha1/hypervisorupgradeplan_types.go, and the objects of the API server that
-- its controller and its webhook read and write.
pub mod Versions
pub mod Api
pub mod Calls
pub mod Reconcile
pub mod Edges
pub mod Reads
pub mod Looks
pub mod Begins
pub mod Progress
pub mod Runs
pub mod Preflight
pub mod Pausing
pub mod PausingLaws
pub mod Webhook
pub mod WebhookLaws
use cluster_api_hypervisor.Common.{ℕ, String, Bool, true, false, List, Option}

-- HypervisorUpgradePlanPhase; `unset` is the empty string, `unexpected` any string that the source
-- does not name.
pub data Phase : Type 0 where
  unset pending rolling_control_plane rolling_workers completed failed : Phase
  unexpected : String → Phase

-- Terminal
unfoldable pub terminal : Phase → Bool
terminal completed = true
terminal failed = true
terminal _ = false

pub record UpgradeStepStatus : Type 0 where
  pub version : String
  pub phase : Phase

pub record PlanSpec : Type 0 where
  pub cluster_name : String
  pub to_version : String
  pub steps : List String

-- metav1.Condition
pub record Condition : Type 0 where
  pub kind : String
  pub status : Bool
  pub reason : String
  pub message : String

pub record PlanStatus : Type 0 where
  pub phase : Phase
  pub from_version : String
  pub current_step : ℕ
  pub steps : List UpgradeStepStatus
  pub failure_reason : String
  pub failure_message : String
  pub conditions : List Condition

-- HypervisorUpgradePlan; `deleting` is a DeletionTimestamp that is set, and `has_finalizer` the
-- presence of the plan's own finalizer.
pub record Plan : Type 0 where
  pub name : String
  pub namespace : String
  pub deleting : Bool
  pub has_finalizer : Bool
  pub spec : PlanSpec
  pub status : PlanStatus

-- The result of golang.org/x/mod/semver.Compare, by its sign.
pub data Comparison : Type 0 where
  less same greater : Comparison

-- golang.org/x/mod/semver
pub record Semver : Type 0 where
  pub is_valid : String → Bool
  pub compare : String → String → Comparison
