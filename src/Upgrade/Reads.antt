-- ===== src/Upgrade/Reads.antt =====
-- The rules by which Progress follows one reconcile: what a call reads, and what ends it.
use cluster_api_hypervisor.Common.{
  inl, String, Bool, false, ◌≡◌, refl, ◌∙◌, List, [], ◌∷◌, some, arith, ◌==◌, select, update,
}
use cluster_api_hypervisor.Exec.{Exec, pure, ◌>>=◌, ◌>>◌}
use cluster_api_hypervisor.Exec.Ends.{Ends, Ends-pure, Ends-bind}
use cluster_api_hypervisor.Upgrade.{terminal, PlanStatus, Plan}
use cluster_api_hypervisor.Upgrade.Api.{
  MachineDeployment, Objects, Api, Call, call, Ends-call, update_status, set_paused, in_cluster,
}
use cluster_api_hypervisor.Upgrade.Reconcile.{fail_plan}
use cluster_api_hypervisor.Upgrade.Calls.{Outcome, Library, is_rolled, all_rolled}
use cluster_api_hypervisor.Upgrade.Edges.{Edge, Moved, Frame}

-- A pause is not what the end of a step looks at.
pub paused-all_rolled :
    (step name patched : String) (paused : Bool) (mds : List MachineDeployment)
    → all_rolled step
        (select (in_cluster name) (update (λ md. md.name == patched) (set_paused paused) mds))
      ≡ all_rolled step (select (in_cluster name) mds)
unfolding select update all_rolled is_rolled
paused-all_rolled step name patched paused [] = refl
paused-all_rolled step name patched paused (md ∷ mds) = ground (
  arith,
  md.name == patched,
  md.cluster_name == name,
  paused-all_rolled step name patched paused mds,
)

module _ (lib : Library) (o : Objects) (p : Plan) (start : o.plan ≡ some p) where
  pub Frame-Moved : (t : Objects) → Frame o t → Moved lib o p t
  Frame-Moved t f = record {
    after = p;
    held = inl (f.same_plan ∙ start);
    same_spec = refl;
    edge = Edge.stays refl;
  }

  -- An action that changes pause annotations at most, and whose result is as `Φ` says.
  abbrev pub Reads : {A : Type 0} → Exec Api A → (A → Type 0) → Type 0
  Reads m Φ =
      Ends (λ s. Frame o s.objects) m (λ a s. Φ a × Frame o s.objects)
        (λ s. Moved lib o p s.objects)

  -- The rest of a reconcile.
  abbrev pub Ending : Exec Api Outcome → Type 0
  Ending m =
      Ends (λ s. Frame o s.objects) m (λ _ s. Moved lib o p s.objects)
        (λ s. Moved lib o p s.objects)

  pub Reads-call :
      {A : Type 0} (c : Call A) (Φ : A → Type 0)
      → ((t : Objects) → Frame o t → Φ (c t).0 × Frame o (c t).1)
      → Reads (call c) Φ
  Reads-call c Φ h = Ends-call (Frame o) c (λ a t. Φ a × Frame o t) (Moved lib o p) h Frame-Moved

  pub Reads-done : {A : Type 0} (a : A) (Φ : A → Type 0) → Φ a → Reads (pure a) Φ
  Reads-done a Φ h = Ends-pure a (λ s f. (h, f))

  -- Reads, and then goes on.
  pub then_read :
      {A : Type 0} (m : Exec Api A) (f : A → Exec Api Outcome) (Φ : A → Type 0)
      → Reads m Φ
      → ((a : A) → Φ a → Ending (f a))
      → Ending (m >>= f)
  then_read m f Φ h k =
      Ends-bind (λ a s. Φ a × Frame o s.objects) m f h
        (λ a. record { at = λ s e. (k a e.0).at s e.1 })

  pub Reads-bind :
      {A B : Type 0} (m : Exec Api A) (f : A → Exec Api B) (Φ : A → Type 0) (Ψ : B → Type 0)
      → Reads m Φ
      → ((a : A) → Φ a → Reads (f a) Ψ)
      → Reads (m >>= f) Ψ
  Reads-bind m f Φ Ψ h k =
      Ends-bind (λ a s. Φ a × Frame o s.objects) m f h
        (λ a. record { at = λ s e. (k a e.0).at s e.1 })

  pub stay : (r : Outcome) → Ending (pure r)
  stay r = Ends-pure r (λ s f. Frame-Moved s.objects f)

  -- The write that ends a reconcile.
  pub status-Ending :
      (st : PlanStatus) (r : Outcome)
      → Edge lib o p.spec p.status st
      → Ending (do update_status st; pure r)
  unfolding update_status
  status-Ending st r edge =
      Ends-bind (λ _ s. Moved lib o p s.objects) _ _
        (Ends-call (Frame o) _ (λ _. Moved lib o p) (Moved lib o p)
          (λ t f.
            let found : t.plan ≡ some p = f.same_plan ∙ start in
            record {
              after = record p { status = st };
              held = inl (rw found);
              same_spec = refl;
              edge = edge;
            })
          Frame-Moved)
        (λ _. Ends-pure r (λ s h. h))

  pub fail-Ending :
      (reason : String) → terminal p.status.phase ≡ false → Ending (fail_plan lib p reason)
  unfolding fail_plan
  fail-Ending reason live = status-Ending _ _ (Edge.fails live refl refl)
