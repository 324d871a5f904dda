-- ===== src/Upgrade/Pausing.antt =====
-- The pause annotations that controllers/hypervisorupgradeplan_controller.go leaves on the
-- MachineDeployments of a cluster.
use cluster_api_hypervisor.Common.{
  String, Bool, true, false, not, ◌&&◌, ◌≡◌, refl, List, [], ◌∷◌, arith, ◌==◌, eq_refl, eq_iff,
  exists_row, select, update,
}
use cluster_api_hypervisor.Upgrade.Api.{MachineDeployment, Objects, in_cluster, set_paused}
use cluster_api_hypervisor.Upgrade.Calls.{is_as_wanted}

-- A MachineDeployment of the cluster that is not as wanted.
abbrev pub is_stray : Bool → String → MachineDeployment → Bool
is_stray paused cluster md = in_cluster cluster md && not (is_as_wanted paused md)

-- Every MachineDeployment of the cluster is paused, or none is.
abbrev pub AllPaused : Bool → String → Objects → Type 0
AllPaused paused cluster o = exists_row (is_stray paused cluster) o.deployments ≡ false

-- The loop is still to patch a MachineDeployment of this name.
abbrev pub is_due : Bool → List MachineDeployment → MachineDeployment → Bool
is_due paused ps md = exists_row (λ p. p.name == md.name && not (is_as_wanted paused p)) ps

abbrev pub is_missed : Bool → String → List MachineDeployment → MachineDeployment → Bool
is_missed paused cluster ps md = is_stray paused cluster md && not (is_due paused ps md)

-- No stray is missed by the rest of the loop.
abbrev pub Covered : Bool → String → List MachineDeployment → Objects → Type 0
Covered paused cluster ps o = exists_row (is_missed paused cluster ps) o.deployments ≡ false

pub select-covers :
    (paused : Bool) (cluster : String) (rows more : List MachineDeployment)
    → ((md : MachineDeployment)
        → is_due paused (select (in_cluster cluster) rows) md ≡ true
        → is_due paused more md ≡ true)
    → exists_row (is_missed paused cluster more) rows ≡ false
unfolding select exists_row
select-covers paused cluster [] more h = refl
select-covers paused cluster (x ∷ rows) more h =
    let rest = select-covers paused cluster rows more (λ md k. h md (ground arith)) in
    ground (arith, h x, rest, eq_refl x.name)

pub patched-covers :
    (paused : Bool) (cluster : String) (p : MachineDeployment) (ps rows : List MachineDeployment)
    → exists_row (is_missed paused cluster (p ∷ ps)) rows ≡ false
    → exists_row
        (is_missed paused cluster ps)
        (update (λ md. md.name == p.name) (set_paused paused) rows)
      ≡ false
unfolding update exists_row is_as_wanted
patched-covers paused cluster p ps [] h = refl
patched-covers paused cluster p ps (x ∷ rows) h = ground (
  arith,
  paused,
  patched-covers paused cluster p ps rows,
  eq_iff x.name p.name,
  eq_iff p.name x.name,
  eq_refl x.name,
)

pub skipped-covers :
    (paused : Bool) (cluster : String) (p : MachineDeployment) (ps rows : List MachineDeployment)
    → is_as_wanted paused p ≡ true
    → exists_row (is_missed paused cluster (p ∷ ps)) rows ≡ false
    → exists_row (is_missed paused cluster ps) rows ≡ false
unfolding exists_row
skipped-covers paused cluster p ps [] good h = refl
skipped-covers paused cluster p ps (x ∷ rows) good h =
    ground (arith, skipped-covers paused cluster p ps rows good)

pub nothing_due :
    (paused : Bool) (cluster : String) (rows : List MachineDeployment)
    → exists_row (is_missed paused cluster []) rows ≡ false
    → exists_row (is_stray paused cluster) rows ≡ false
unfolding exists_row
nothing_due paused cluster [] h = refl
nothing_due paused cluster (x ∷ rows) h = ground (arith, nothing_due paused cluster rows)
