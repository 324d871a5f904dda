-- ===== src/Upgrade/PausingLaws.antt =====
-- When controllers/hypervisorupgradeplan_controller.go has paused or unpaused the MachineDeployments
-- of a cluster.
use cluster_api_hypervisor.Common.{
  String, Bool, true, false, not, ◌≡◌, refl, Option, none, some, List, [], ◌∷◌, arith, ◌==◌, find,
  subst,
}
use cluster_api_hypervisor.Exec.{ok, Exec, pure, ◌>>◌}
use cluster_api_hypervisor.Exec.Triple.{
  Triple, Triple-pure, Triple-if, Triple-bind, Triple-weaken, Triple-both,
}
use cluster_api_hypervisor.Upgrade.{Plan, PlanStatus}
use cluster_api_hypervisor.Upgrade.Api.{
  Cluster, ControlPlane, MachineDeployment, Objects, Api, Call, call, run_call, list_deployments,
  patch_paused, get_cluster, get_control_plane, update_status, update_finalizer, write_finalizer,
  patch_cluster_version, list_control_plane_machines,
}
use cluster_api_hypervisor.Upgrade.Reconcile.{
  fail_plan, unpause_if_found, reconcile_delete, patch_topology_version, gate_workers,
  reconcile_control_plane_step,
}
use cluster_api_hypervisor.Upgrade.Calls.{
  Outcome, Library, is_as_wanted, patch_each, set_machine_deployments_paused, target_cluster,
  control_plane_of, refers_to, control_plane_converged,
}
use cluster_api_hypervisor.Upgrade.Pausing.{
  AllPaused, Covered, select-covers, patched-covers, skipped-covers, nothing_due,
}

module _ {A : Type 0} (P : Objects → Type 0) (c : Call A) (Q : A → Objects → Type 0) where
  run_call-post :
      ((o : Objects) → P o → Q (c o).0 (c o).1)
      → (faults : List Bool) (s : Api) (a : A) → P s.objects
      → (run_call faults c s).0 ≡ ok a
      → Q a (run_call faults c s).1.objects
  run_call-post h [] s a p e = subst (λ x. Q x (c s.objects).1) (cc) (h s.objects p)
  run_call-post h (true ∷ later) s a p e = absurd (cc)
  run_call-post h (false ∷ later) s a p e = subst (λ x. Q x (c s.objects).1) (cc) (h s.objects p)

  -- What a call that succeeds leaves.
  Triple-call :
      ((o : Objects) → P o → Q (c o).0 (c o).1)
      → Triple (λ s. P s.objects) (call c) (λ a s. Q a s.objects)
  unfolding call
  Triple-call h = record { at = λ s p a e. run_call-post h s.faults s a p e }

module _ (paused : Bool) (cluster : String) where
  abbrev Wanted : {A : Type 0} → A → Api → Type 0
  Wanted _ s = AllPaused paused cluster s.objects

  -- A step that leaves the annotations alone.
  abbrev Calm : {A : Type 0} → Exec Api A → Type 0
  Calm m = Triple (λ s. AllPaused paused cluster s.objects) m Wanted

  Calm-call :
      {A : Type 0} (c : Call A)
      → ((o : Objects) → (c o).1.deployments ≡ o.deployments)
      → Calm (call c)
  Calm-call c h = Triple-call _ c (λ _. AllPaused paused cluster) (λ o p. rw (h o) p)

  Calm-pure : {A : Type 0} (a : A) → Calm (pure a)
  Calm-pure a = Triple-pure a (λ s p. p)

  list-post :
      Triple (λ s. Unit) (list_deployments cluster) (λ mds s. Covered paused cluster mds s.objects)
  unfolding list_deployments
  list-post =
      Triple-call (λ _. Unit) _ (λ mds o. Covered paused cluster mds o)
        (λ o _. select-covers paused cluster o.deployments _ (λ md k. k))

  patch-post :
      (p : MachineDeployment) (ps : List MachineDeployment)
      → Triple
          (λ s. Covered paused cluster (p ∷ ps) s.objects)
          (patch_paused paused p.name)
          (λ _ s. Covered paused cluster ps s.objects)
  unfolding patch_paused
  patch-post p ps =
      Triple-call (Covered paused cluster (p ∷ ps)) _ (λ _. Covered paused cluster ps)
        (λ o h. patched-covers paused cluster p ps o.deployments h)

  patch_each-post :
      (ps : List MachineDeployment)
      → Triple
          (λ s. Covered paused cluster ps s.objects)
          (patch_each paused ps)
          (λ _ s. AllPaused paused cluster s.objects)
  unfolding patch_each
  patch_each-post [] = Triple-pure tt (λ s h. nothing_due paused cluster s.objects.deployments h)
  patch_each-post (p ∷ ps) =
      Triple-bind (λ _ s. Covered paused cluster ps s.objects) _ _
        (Triple-if (is_as_wanted paused p) _ _
          (λ good.
            Triple-pure tt (λ s h. skipped-covers paused cluster p ps s.objects.deployments good h))
          (λ _. patch-post p ps))
        (λ _. patch_each-post ps)

-- A setMachineDeploymentsPaused that returns no error leaves every MachineDeployment of the cluster
-- paused, or every one unpaused, as it was asked.
pub set_machine_deployments_paused-AllPaused :
    (c : Cluster) (paused : Bool)
    → Triple
        (λ s. Unit)
        (set_machine_deployments_paused c paused)
        (λ _ s. AllPaused paused c.name s.objects)
unfolding set_machine_deployments_paused
set_machine_deployments_paused-AllPaused c paused =
    Triple-bind _ _ _ (list-post paused c.name) (λ mds. patch_each-post paused c.name mds)

module _ (lib : Library) (plan : Plan) (c : Cluster) where
  status-Calm :
      (paused : Bool) (st : PlanStatus) (r : Outcome)
      → Calm paused c.name (do update_status st; pure r)
  unfolding update_status
  status-Calm paused st r =
      Triple-bind _ _ _ (Calm-call paused c.name _ (λ o. refl)) (λ _. Calm-pure paused c.name r)

  patch_topology-Calm : (step : String) → Calm true c.name (patch_topology_version lib plan c step)
  unfolding patch_topology_version fail_plan patch_cluster_version
  patch_topology-Calm step =
      Triple-if (c.class_name == "") _ _ (λ _. status-Calm true _ _)
        λ _. Triple-bind _ _ _ (Calm-call true c.name _ (λ o. refl)) (λ _. Calm-pure true c.name _)

  gate-Calm :
      (step : String) (x : Option ControlPlane) → Calm true c.name (gate_workers lib plan c step x)
  unfolding gate_workers list_control_plane_machines
  gate-Calm step none = Calm-pure true c.name _
  gate-Calm step (some cp) = Triple-bind _ _ _ (Calm-call true c.name _ (λ o. refl)) λ machines.
      Triple-if (control_plane_converged step cp machines) _ _ (λ _. status-Calm true _ _)
        (λ _. Calm-pure true c.name _)

  control_plane-Calm : Calm true c.name (control_plane_of c)
  unfolding control_plane_of get_control_plane
  control_plane-Calm =
      Triple-if (refers_to "HypervisorControlPlane" c.control_plane_ref) _ _
        (λ _. Calm-call true c.name _ (λ o. refl)) (λ _. Calm-pure true c.name none)

  control_plane_step-post :
      (step : String)
      → Triple
          (λ s. Unit)
          (reconcile_control_plane_step lib plan c step)
          (λ _ s. AllPaused true c.name s.objects)
  unfolding reconcile_control_plane_step
  control_plane_step-post step =
      Triple-bind _ _ _ (set_machine_deployments_paused-AllPaused c true) λ _.
        Triple-if (not (c.topology_version == step)) _ _ (λ _. patch_topology-Calm step)
          λ _. Triple-bind _ _ _ control_plane-Calm (λ x. gate-Calm step x)

  -- A control-plane step that returns no error, be it that it asked the topology for the version,
  -- waits, or hands over to the workers, leaves every MachineDeployment of the cluster paused.
  pub reconcile_control_plane_step-AllPaused :
      (step : String) (s : Api) (r : Outcome)
      → (reconcile_control_plane_step lib plan c step s).0 ≡ ok r
      → AllPaused true c.name (reconcile_control_plane_step lib plan c step s).1.objects
  reconcile_control_plane_step-AllPaused step s r e = (control_plane_step-post step).at s tt r e

-- The cluster, if there is one, has no paused MachineDeployment.
abbrev pub IsUnpaused : Option Cluster → Objects → Type 0
IsUnpaused none o = Unit
IsUnpaused (some c) o = AllPaused false c.name o

unpause-post :
    (lib : Library) (x : Option Cluster)
    → Triple (λ s. Unit) (unpause_if_found lib x) (λ _ s. IsUnpaused x s.objects)
unfolding unpause_if_found
unpause-post lib none = Triple-pure tt (λ s h. tt)
unpause-post lib (some c) = set_machine_deployments_paused-AllPaused c false

-- After a reconcile of a deleted plan that returns no error: when its cluster is there, no
-- MachineDeployment of the cluster is paused, and the plan, if the server holds it, has no finalizer.
pub record IsReleased (plan : Plan) (o : Objects) : Type 0 where
  pub unpaused :
      (c : Cluster)
      → find (λ x. x.name == plan.spec.cluster_name) o.clusters ≡ some c
      → AllPaused false c.name o
  pub let_go : (q : Plan) → o.plan ≡ some q → q.has_finalizer ≡ false

-- The clusters are as they were found.
abbrev FoundAs : Plan → Option Cluster → Objects → Type 0
FoundAs plan x o = find (λ y. y.name == plan.spec.cluster_name) o.clusters ≡ x

module _ (lib : Library) (plan : Plan) where
  patches_keep :
      (x : Option Cluster) (paused : Bool) (ps : List MachineDeployment)
      → Triple
          (λ s. FoundAs plan x s.objects)
          (patch_each paused ps)
          (λ _ s. FoundAs plan x s.objects)
  unfolding patch_each patch_paused
  patches_keep x paused [] = Triple-pure tt (λ s h. h)
  patches_keep x paused (p ∷ ps) =
      Triple-bind _ _ _
        (Triple-if (is_as_wanted paused p) _ _ (λ _. Triple-pure tt (λ s h. h))
          (λ _. Triple-call (FoundAs plan x) _ (λ _. FoundAs plan x) (λ o h. h)))
        (λ _. patches_keep x paused ps)

  unpause_keeps :
      (x y : Option Cluster)
      → Triple
          (λ s. FoundAs plan x s.objects)
          (unpause_if_found lib y)
          (λ _ s. FoundAs plan x s.objects)
  unfolding unpause_if_found set_machine_deployments_paused list_deployments
  unpause_keeps x none = Triple-pure tt (λ s h. h)
  unpause_keeps x (some c) =
      Triple-bind _ _ _ (Triple-call (FoundAs plan x) _ (λ _. FoundAs plan x) (λ o h. h))
        (λ ps. patches_keep x false ps)

  released :
      (x : Option Cluster) (o : Objects)
      → FoundAs plan x o
      → IsUnpaused x o
      → (c : Cluster) → find (λ y. y.name == plan.spec.cluster_name) o.clusters ≡ some c
      → AllPaused false c.name o
  released none o f u c e = absurd (cc)
  released (some d) o f u c e =
      let same : d ≡ c = cc in subst (λ y. AllPaused false y.name o) same u

  let_go_of :
      (x : Option Plan) (q : Plan) → write_finalizer false x ≡ some q → q.has_finalizer ≡ false
  let_go_of none q e = absurd (cc)
  let_go_of (some p) q e = ground arith

  finalizer-post :
      (x : Option Cluster)
      → Triple
          (λ s. FoundAs plan x s.objects × IsUnpaused x s.objects)
          (update_finalizer false)
          (λ _ s. IsReleased plan s.objects)
  unfolding update_finalizer
  finalizer-post x =
      Triple-call (λ o. FoundAs plan x o × IsUnpaused x o) _ (λ _ o. IsReleased plan o)
        (λ o h. record {
          unpaused = λ c e. released x o h.0 h.1 c e;
          let_go = λ q e. let_go_of o.plan q e;
        })

  unpause-both :
      (x : Option Cluster)
      → Triple
          (λ s. FoundAs plan x s.objects)
          (unpause_if_found lib x)
          (λ _ s. FoundAs plan x s.objects × IsUnpaused x s.objects)
  unpause-both x =
      Triple-weaken (λ s. FoundAs plan x s.objects × Unit) _ (λ s h. (h, tt))
        (Triple-both _ (unpause_keeps x x) (unpause-post lib x))

  delete-post : Triple (λ s. Unit) (reconcile_delete lib plan) (λ _ s. IsReleased plan s.objects)
  unfolding reconcile_delete target_cluster get_cluster
  delete-post =
      Triple-bind (λ x s. FoundAs plan x s.objects) _ _
        (Triple-call (λ _. Unit) _ (λ x o. FoundAs plan x o) (λ o _. refl))
        λ x.
          Triple-bind _ _ _ (unpause-both x)
            λ _. Triple-bind _ _ _ (finalizer-post x) λ _. Triple-pure _ (λ s h. h)

  -- A reconcile of a deleted plan that returns no error leaves no MachineDeployment of its cluster
  -- paused, if the cluster is there, and the plan, if the server still holds it, without finalizer.
  pub reconcile_delete-IsReleased :
      (s : Api) (r : Outcome)
      → (reconcile_delete lib plan s).0 ≡ ok r
      → IsReleased plan (reconcile_delete lib plan s).1.objects
  reconcile_delete-IsReleased s r e = delete-post.at s tt r e
