-- ===== src/Upgrade/Versions.antt =====
-- The functions of controllers/hypervisorupgradeplan_controller.go that read and write a plan in
-- memory.
use cluster_api_hypervisor.Common.{
  String, Bool, true, false, not, ◌||◌, List, [], ◌∷◌, ◌==◌, if◌then◌else◌,
}
use cluster_api_hypervisor.Upgrade.{
  Phase, rolling_control_plane, UpgradeStepStatus, PlanSpec, less, Semver,
}

-- resolveUpgradeSteps
unfoldable pub resolve_upgrade_steps : PlanSpec → List String
resolve_upgrade_steps spec = elim spec.steps [ [] ↦ spec.to_version ∷ [] | s ∷ ss ↦ s ∷ ss ]

-- markStepPhase: the first entry of the version
unfoldable pub mark_step_phase : String → Phase → List UpgradeStepStatus → List UpgradeStepStatus
mark_step_phase version phase [] = []
mark_step_phase version phase (s ∷ ss) =
    let later = s ∷ mark_step_phase version phase ss in
    if s.version == version then record s { phase = phase } ∷ ss else later

-- The entries that beginPlan makes of the resolved steps.
unfoldable pub initial_steps : List String → List UpgradeStepStatus
initial_steps [] = []
initial_steps (v ∷ vs) = record { version = v; phase = rolling_control_plane } ∷ initial_steps vs

unfoldable pub contains : List String → String → Bool
contains [] v = false
contains (x ∷ xs) v = x == v || contains xs v

-- missingImageVersions, by the versions of the registered images
unfoldable pub missing_image_versions : List String → List String → List String
missing_image_versions registered [] = []
missing_image_versions registered (v ∷ vs) =
    let rest = missing_image_versions registered vs in
    if contains registered v then rest else v ∷ rest

-- compareSemver and checkVersionAdvance: whether `target` advances on `current`
unfoldable pub check_version_advance : Semver → String → String → Bool
check_version_advance semver current target =
    if not (semver.is_valid current) || not (semver.is_valid target)
    then false
    else elim (semver.compare current target) [ less ↦ true | _ ↦ false ]
