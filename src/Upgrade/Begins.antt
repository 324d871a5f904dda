-- ===== src/Upgrade/Begins.antt =====
-- How beginPlan and completePlan of controllers/hypervisorupgradeplan_controller.go end.
use Prim.Native.Nat.{max}
use cluster_api_hypervisor.Common.{
  String, Bool, true, false, not, ◌≡◌, ◌⊎◌, refl, sym, List, [], ◌∷◌, Option, none, some, arith,
  eqb, if◌then◌else◌,
}
use cluster_api_hypervisor.Exec.{Exec, ◌>>=◌}
use cluster_api_hypervisor.Exec.Ends.{Ends-if}
use cluster_api_hypervisor.Upgrade.{unset, pending, completed, terminal, PlanStatus, Plan}
use cluster_api_hypervisor.Upgrade.Api.{Cluster, HypervisorCluster, ControlPlane, Objects, Api}
use cluster_api_hypervisor.Upgrade.Reconcile.{
  is_advancing, start_unless_missing, fail_plan, complete_plan, preflight, begin_with_control_plane,
  begin_with_infrastructure, begin_plan,
}
use cluster_api_hypervisor.Upgrade.Calls.{current_cluster_version, Outcome, Library, done, requeue}
use cluster_api_hypervisor.Upgrade.Edges.{
  Edge, IsReady, cluster_in, control_plane_in, hypervisor_cluster_in,
}
use cluster_api_hypervisor.Upgrade.Reads.{Reads, Ending, then_read, status-Ending, fail-Ending}
use cluster_api_hypervisor.Upgrade.Looks.{
  target-Reads, control_plane-Reads, linked-Reads, unpause-Reads,
}

module _ (lib : Library) (o : Objects) (p : Plan) (start : o.plan ≡ some p) where
  abbrev pub EndsWell : Exec Api Outcome → Type 0
  EndsWell m = Ending lib o p start m

  pub then_end :
      {A : Type 0} (m : Exec Api A) (f : A → Exec Api Outcome) {Φ : A → Type 0}
      → Reads lib o p start m Φ
      → ((a : A) → Φ a → EndsWell (f a))
      → EndsWell (m >>= f)
  then_end m f {Φ} h k = then_read lib o p start m f Φ h k

  pub if_end :
      (b : Bool) (m n : Exec Api Outcome)
      → (b ≡ true → EndsWell m)
      → (b ≡ false → EndsWell n)
      → EndsWell (if b then m else n)
  if_end b m n h k = Ends-if b m n h k

  abbrev fails_with :
      (reason : String) → terminal p.status.phase ≡ false → EndsWell (fail_plan lib p reason)
  fails_with = fail-Ending lib o p start

  pub complete-Ending :
      (q : Plan)
      → ((st : PlanStatus)
          → st.phase ≡ completed
          → st.current_step ≡ q.status.current_step
          → st.steps ≡ q.status.steps
          → Edge lib o p.spec p.status st)
      → EndsWell (complete_plan lib q)
  unfolding complete_plan
  complete-Ending q edge = then_end _ _ (target-Reads lib o p start q) λ c _.
      then_end _ _ (unpause-Reads lib o p start c)
        λ _ _. status-Ending lib o p start _ done (edge _ refl refl refl)

  abbrev IsNew : Type 0
  IsNew = (p.status.phase ≡ unset) ⊎ (p.status.phase ≡ pending)

  start-Ending :
      (current : String) (missing : List String)
      → terminal p.status.phase ≡ false
      → IsNew
      → (missing ≡ [] → IsReady lib o p.spec)
      → EndsWell (start_unless_missing lib p current missing)
  unfolding start_unless_missing
  start-Ending current [] live new ready =
      status-Ending lib o p start _ requeue (Edge.begins new (ready refl) refl refl refl)
  start-Ending current (v ∷ vs) live new ready = fails_with "ImageNotRegistered" live

  preflight-Ending :
      (c : Cluster) (hc : HypervisorCluster) (cp : ControlPlane)
      → terminal p.status.phase ≡ false
      → IsNew
      → cluster_in o p.spec.cluster_name ≡ some c
      → hypervisor_cluster_in o c ≡ some hc
      → control_plane_in o c ≡ some cp
      → EndsWell (preflight lib p c hc cp)
  unfolding preflight
  preflight-Ending c hc cp live new found infra control =
      if_end (not (eqb (max cp.replicas 1) 1)) _ _ (λ _. fails_with "UnsupportedReplicas" live)
        λ one.
          if_end (not (is_advancing lib p.spec (current_cluster_version c cp))) _ _
            (λ _. fails_with "VersionNotAdvancing" live)
            λ on. start-Ending (current_cluster_version c cp) _ live new λ none_missing. record {
              cluster = c;
              hypervisor_cluster = hc;
              control_plane = cp;
              cluster_found = found;
              infrastructure_found = infra;
              control_plane_found = control;
              one_replica = ground arith;
              advancing = ground arith;
              registered = none_missing;
            }

  with_control_plane :
      (c : Cluster) (hc : HypervisorCluster) (x : Option ControlPlane)
      → terminal p.status.phase ≡ false
      → IsNew
      → cluster_in o p.spec.cluster_name ≡ some c
      → hypervisor_cluster_in o c ≡ some hc
      → x ≡ control_plane_in o c
      → EndsWell (begin_with_control_plane lib p c hc x)
  unfolding begin_with_control_plane
  with_control_plane c hc none live new found infra e = fails_with _ live
  with_control_plane c hc (some cp) live new found infra e =
      preflight-Ending c hc cp live new found infra (sym e)

  with_infrastructure :
      (c : Cluster) (x : Option HypervisorCluster)
      → terminal p.status.phase ≡ false
      → IsNew
      → cluster_in o p.spec.cluster_name ≡ some c
      → x ≡ hypervisor_cluster_in o c
      → EndsWell (begin_with_infrastructure lib p c x)
  unfolding begin_with_infrastructure
  with_infrastructure c none live new found e = fails_with _ live
  with_infrastructure c (some hc) live new found e =
      then_end _ _ (control_plane-Reads lib o p start c)
        (λ x h. with_control_plane c hc x live new found (sym e) h)

  pub begin-Ending :
      (c : Cluster)
      → terminal p.status.phase ≡ false
      → IsNew
      → cluster_in o p.spec.cluster_name ≡ some c
      → EndsWell (begin_plan lib p c)
  unfolding begin_plan
  begin-Ending c live new found =
      then_end _ _ (linked-Reads lib o p start c) (λ x h. with_infrastructure c x live new found h)
