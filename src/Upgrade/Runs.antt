-- ===== src/Upgrade/Runs.antt =====
-- Many reconciles of controllers/hypervisorupgradeplan_controller.go, with anything in between that
-- leaves the plan's spec and status alone and makes no new plan of its name: the API server admits no
-- change of the spec, and the status is written by this controller only. The plan may be deleted.
use cluster_api_hypervisor.Common.{
  ℕ, suc, ◌+◌, ◌*◌, ◌≤◌, ◌<◌, true, false, ◌≡◌, refl, sym, ap, ◌∙◌, subst, inl, inr, sym, subst,
  some, none, arith, ◌⊎◌, Option-cases,
}
use cluster_api_hypervisor.Upgrade.{
  Phase, unset, pending, rolling_control_plane, rolling_workers, completed, failed, unexpected,
  terminal, PlanSpec, PlanStatus, Plan,
}
use cluster_api_hypervisor.Upgrade.Versions.{resolve_upgrade_steps}
use cluster_api_hypervisor.Upgrade.Api.{Objects, Api, get_plan, call}
use cluster_api_hypervisor.Exec.{pure, ◌>>=◌}
use cluster_api_hypervisor.Upgrade.Reconcile.{reconcile, reconcile_plan}
use cluster_api_hypervisor.Upgrade.Calls.{Library}
use cluster_api_hypervisor.Upgrade.Edges.{
  step_count, has_begun, Edge, stays, begins, rolls_workers, advances, completes, completes_past,
  fails,
}
use cluster_api_hypervisor.Upgrade.Progress.{reconcile-Moved}

-- The plan that the server holds, if it still holds one, has this spec and this status.
abbrev pub Holds : PlanSpec → PlanStatus → Objects → Type 0
Holds spec status o =
    (plan : Plan) → o.plan ≡ some plan → (plan.spec ≡ spec) × (plan.status ≡ status)

reconcile-absent :
    (lib : Library) (s : Api) → s.objects.plan ≡ none → (reconcile lib s).1.objects.plan ≡ none
unfolding reconcile get_plan call reconcile_plan ◌>>=◌ pure
reconcile-absent lib s h = ground (arith, h, s.faults)

-- A run of the controller: reconciles, and changes by others.
pub data Run (lib : Library) (s : Api) : Api → Type 0 where
  stop : Run lib s s
  reconciled : (t : Api) → Run lib s t → Run lib s (reconcile lib t).1
  changed :
      (t u : Api)
      → Run lib s t
      → ((spec : PlanSpec) (st : PlanStatus) → Holds spec st t.objects → Holds spec st u.objects)
      → Run lib s u

-- A rolling phase names a step of the plan, and a completed plan stands at its last step.
abbrev SoundAt : Phase → ℕ → ℕ → Type 0
SoundAt rolling_control_plane step count = step < count
SoundAt rolling_workers step count = step < count
SoundAt completed step count = suc step ≡ count
SoundAt (unexpected w) step count = ⊥
SoundAt _ step count = Unit

abbrev pub IsSound : PlanSpec → PlanStatus → Type 0
IsSound spec st = SoundAt st.phase st.current_step (step_count spec)

-- How far a plan is: two places for each step, and the last place for a terminal phase.
abbrev place : Phase → ℕ → ℕ → ℕ
place rolling_control_plane step count = 1 + 2 * step
place rolling_workers step count = 2 + 2 * step
place completed step count = 1 + 2 * count
place failed step count = 1 + 2 * count
place _ step count = 0

abbrev pub progress : PlanSpec → PlanStatus → ℕ
progress spec st = place st.phase st.current_step (step_count spec)

place-bound :
    (ph : Phase) (step count : ℕ) → SoundAt ph step count → place ph step count ≤ 1 + 2 * count
place-bound unset step count h = omega arith
place-bound pending step count h = omega arith
place-bound rolling_control_plane step count h = omega arith
place-bound rolling_workers step count h = omega arith
place-bound completed step count h = omega arith
place-bound failed step count h = omega arith
place-bound (unexpected w) step count h = absurd h

step_count-positive : (spec : PlanSpec) → 0 < step_count spec
unfolding resolve_upgrade_steps
step_count-positive spec = ground (arith, spec.steps)

-- What a move keeps, and that it goes forward.
record IsForward (spec : PlanSpec) (a b : PlanStatus) : Type 0 where
  sound : IsSound spec b
  onward : progress spec a ≤ progress spec b

no_step_past :
    (p : Phase) (step count : ℕ)
    → terminal p ≡ false
    → has_begun p ≡ true
    → SoundAt p step count
    → count ≤ step
    → ⊥
unfolding terminal has_begun
no_step_past p step count l g h past = ground (arith, p)

module _ (lib : Library) (o : Objects) (spec : PlanSpec) (a b : PlanStatus) where
  abbrev count : ℕ
  count = step_count spec

  -- A move between known phases.
  to_forward :
      (p q : Phase) (i : ℕ)
      → a.phase ≡ p
      → b.phase ≡ q
      → b.current_step ≡ i
      → SoundAt q i count
      → place p a.current_step count ≤ place q i count
      → IsForward spec a b
  to_forward p q i ha hb hi sound onward = record {
    sound = rw (hb, hi) sound;
    onward = rw (ha, hb, hi) onward;
  }

  Edge-IsForward : IsSound spec a → Edge lib o spec a b → IsForward spec a b
  Edge-IsForward h (stays e) = record { sound = rw e h; onward = rw e (omega arith) }
  Edge-IsForward h (begins (inl new) ready hb hi steps) =
      to_forward unset rolling_control_plane 0 new hb hi (step_count-positive spec) (omega arith)
  Edge-IsForward h (begins (inr new) ready hb hi steps) =
      to_forward pending rolling_control_plane 0 new hb hi (step_count-positive spec) (omega arith)
  Edge-IsForward h (rolls_workers step ha at_step gate hb hi st) =
      to_forward rolling_control_plane rolling_workers a.current_step ha hb hi
        (subst (λ x. SoundAt x a.current_step count) ha h) (omega arith)
  Edge-IsForward h (advances step ha at_step within gate hb hi st) =
      to_forward rolling_workers rolling_control_plane (suc a.current_step) ha hb hi within
        (omega arith)
  Edge-IsForward h (completes step ha at_step last gate hb hi st) =
      to_forward rolling_workers completed a.current_step ha hb hi last (omega (arith, last))
  Edge-IsForward h (completes_past live begun past hb hi) =
      absurd (no_step_past a.phase a.current_step count live begun h past)
  Edge-IsForward h (fails live hb hi) =
      to_forward a.phase failed a.current_step refl hb hi tt
        (place-bound a.phase a.current_step count h)

-- What every moment of a run from a sound status keeps.
record Kept (spec : PlanSpec) (start : PlanStatus) (o : Objects) : Type 0 where
  now : PlanStatus
  holds : Holds spec now o
  sound : IsSound spec now
  onward : progress spec start ≤ progress spec now
  settled : terminal start.phase ≡ true → now ≡ start

no_terminal : (p q : Phase) → p ≡ q → terminal q ≡ false → terminal p ≡ true → ⊥
no_terminal p q e f g = cc

terminal-Edge :
    (lib : Library) (o : Objects) (spec : PlanSpec) (a b : PlanStatus)
    → terminal a.phase ≡ true
    → Edge lib o spec a b
    → b ≡ a
unfolding terminal
terminal-Edge lib o spec a b done (stays e) = e
terminal-Edge lib o spec a b done (begins (inl new) ready hb hi st) =
    absurd (no_terminal _ _ new refl done)
terminal-Edge lib o spec a b done (begins (inr new) ready hb hi st) =
    absurd (no_terminal _ _ new refl done)
terminal-Edge lib o spec a b done (rolls_workers step ha at_step gate hb hi st) =
    absurd (no_terminal _ _ ha refl done)
terminal-Edge lib o spec a b done (advances step ha at_step within gate hb hi st) =
    absurd (no_terminal _ _ ha refl done)
terminal-Edge lib o spec a b done (completes step ha at_step last gate hb hi st) =
    absurd (no_terminal _ _ ha refl done)
terminal-Edge lib o spec a b done (completes_past live begun past hb hi) = absurd (cc)
terminal-Edge lib o spec a b done (fails live hb hi) = absurd (cc)

module _ (lib : Library) (spec : PlanSpec) (start : PlanStatus) where
  moved-Kept :
      (t : Api) (p : Plan)
      → t.objects.plan ≡ some p
      → Kept spec start t.objects
      → Kept spec start (reconcile lib t).1.objects
  moved-Kept t p there k =
      let (same_spec, same_status) = k.holds p there in
      let m = reconcile-Moved lib p t there in
      let edge =
        subst (λ x. Edge lib t.objects x k.now m.after.status) same_spec
          (subst (λ x. Edge lib t.objects p.spec x m.after.status) same_status m.edge) in
      let forward = Edge-IsForward lib t.objects spec k.now m.after.status k.sound edge in
      record {
        now = m.after.status;
        holds = λ q e.
            after_held (reconcile lib t).1.objects m.after q m.held e (m.same_spec ∙ same_spec);
        sound = forward.sound;
        onward = omega (arith, k.onward, forward.onward);
        settled = λ h.
            terminal-Edge lib t.objects spec k.now m.after.status (rw (k.settled h) h) edge
            ∙ k.settled h;
      }
    where
      after_held :
          {F : Type 0} (o : Objects) (a q : Plan)
          → (o.plan ≡ some a) ⊎ (F × (o.plan ≡ none))
          → o.plan ≡ some q
          → a.spec ≡ spec
          → (q.spec ≡ spec) × (q.status ≡ a.status)
      after_held o a q (inl h) e k =
          let same : a ≡ q = cc in
          (subst (λ x. x.spec ≡ spec) same k, ap (λ x. x.status) (sym same))
      after_held o a q (inr h) e k = absurd (cc (h.1, e))

  absent-Kept :
      (t : Api)
      → t.objects.plan ≡ none
      → Kept spec start t.objects
      → Kept spec start (reconcile lib t).1.objects
  absent-Kept t gone k = record {
    now = k.now;
    holds = λ q e. absurd (cc (reconcile-absent lib t gone, e));
    sound = k.sound;
    onward = k.onward;
    settled = k.settled;
  }

  reconciled-Kept :
      (t : Api) → Kept spec start t.objects → Kept spec start (reconcile lib t).1.objects
  reconciled-Kept t k = elim (Option-cases t.objects.plan) [
    | inl gone ↦ absent-Kept t gone k
    | inr (p, there) ↦ moved-Kept t p there k
  ]

  run-Kept : (s t : Api) → Kept spec start s.objects → Run lib s t → Kept spec start t.objects
  run-Kept s t k stop = k
  run-Kept s _ k (reconciled t' r) = reconciled-Kept t' (run-Kept s t' k r)
  run-Kept s _ k (changed t' u r same) =
      let kept = run-Kept s t' k r in
      record {
        now = kept.now;
        holds = same spec kept.now kept.holds;
        sound = kept.sound;
        onward = kept.onward;
        settled = kept.settled;
      }

module _ (lib : Library) (s t : Api) (p q : Plan) (before : s.objects.plan ≡ some p)
    (after : t.objects.plan ≡ some q) (sound : IsSound p.spec p.status) where
  kept : Run lib s t → Kept p.spec p.status t.objects
  kept r =
      run-Kept lib p.spec p.status s t
        record {
          now = p.status;
          holds = λ x e.
              let same : p ≡ x = cc in (ap (λ y. y.spec) (sym same), ap (λ y. y.status) (sym same));
          sound = sound;
          onward = omega arith;
          settled = λ _. refl;
        }
        r

  same_now : (k : Kept p.spec p.status t.objects) → k.now ≡ q.status
  same_now k = sym (k.holds q after).1

  -- A run that starts at a sound status ends at one, under the same spec: the phase is rolling only
  -- at a step that the plan has, and Completed only at its last step.
  pub run-IsSound : Run lib s t → (q.spec ≡ p.spec) × IsSound p.spec q.status
  run-IsSound r =
      let k = kept r in ((k.holds q after).0, subst (IsSound p.spec) (same_now k) k.sound)

  -- A run from a sound status never takes a plan back: not to an earlier step, nor from the workers of a step to its
  -- control plane, nor out of a terminal phase.
  pub run-progress : Run lib s t → progress p.spec p.status ≤ progress p.spec q.status
  run-progress r =
      let k = kept r in
      subst (λ x. progress p.spec p.status ≤ progress p.spec x) (same_now k) k.onward

  -- A plan that is Failed, or Completed at its last step, keeps its whole status in every run.
  pub run-settled : terminal p.status.phase ≡ true → Run lib s t → q.status ≡ p.status
  run-settled over r = let k = kept r in sym (same_now k) ∙ k.settled over
