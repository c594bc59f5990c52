-- ===== src/Lifecycle/Phases.antt =====
-- The phase that `ProcessLifecycle` of internal/lifecycle/manager.go leaves.
use roost_keeper.Prelude.{
  ◌≡◌, ◌∙◌, ◌↔◌, ◌∷◌, if◌then◌else◌, ℕ, String, List, Option, Bool, true, false, none, some, [],
  refl, ap, arith, eq_iff, lookup,
}
use roost_keeper.Roost.{
  Message, Phase, unset, pending, deploying, ready, failed, tearing_down, unknown, HelmRelease,
  Roost,
}
use roost_keeper.Lifecycle.{
  HelmStatus, release_not_found, status_failed, release, process_lifecycle, track_roost_creation,
  monitor_deployment_status, determine_phase_from_helm_status, evaluate_teardown_policies,
  trigger_teardown, follow_release, trigger_found, same_phase,
}
use roost_keeper.Lifecycle.Triggers.{SameFacts, is_some, is_to_go, policy-is_to_go, same-is_to_go}

-- the phases that the statuses of Helm's releases stand for; any other is Pending
abbrev pub release_phases : List (String × Phase)
release_phases =
    ("deployed", ready)
    ∷ ("pending-install", deploying)
    ∷ ("pending-upgrade", deploying)
    ∷ ("pending-rollback", deploying)
    ∷ ("failed", failed)
    ∷ ("uninstalling", tearing_down)
    ∷ []

abbrev or_pending : Option Phase → Phase
or_pending none = pending
or_pending (some p) = p

-- the phase that Helm's answer shows, where there was the phase `p`
abbrev pub shown : HelmStatus → Phase → Phase
shown release_not_found p = p
shown (status_failed e) p = p
shown (release none) p = p
shown (release (some h)) p = or_pending (lookup h.status release_phases)

pub release-shown :
    (h : HelmRelease)
    → determine_phase_from_helm_status h ≡ or_pending (lookup h.status release_phases)
unfolding determine_phase_from_helm_status lookup
release-shown h = ground (
  arith,
  eq_iff h.status "deployed",
  eq_iff "deployed" h.status,
  eq_iff h.status "pending-install",
  eq_iff "pending-install" h.status,
  eq_iff h.status "pending-upgrade",
  eq_iff "pending-upgrade" h.status,
  eq_iff h.status "pending-rollback",
  eq_iff "pending-rollback" h.status,
  eq_iff h.status "failed",
  eq_iff "failed" h.status,
  eq_iff h.status "uninstalling",
  eq_iff "uninstalling" h.status,
)

abbrev pub is_error : HelmStatus → Bool
is_error (status_failed e) = true
is_error _ = false

abbrev pub started : Phase → Phase
started unset = pending
started p = p

same_phase_sound : (p q : Phase) → same_phase p q ≡ true → p ≡ q
same_phase_sound pending q h = ground arith
same_phase_sound deploying q h = ground arith
same_phase_sound ready q h = ground arith
same_phase_sound failed q h = ground arith
same_phase_sound tearing_down q h = ground arith
same_phase_sound unset q h = cc
same_phase_sound (unknown s) q h = cc

phase-follow_release :
    (now : ℕ) (r : Roost) (h : HelmRelease)
    → (follow_release now r h).status.phase ≡ determine_phase_from_helm_status h
phase-follow_release now r h =
    ground (arith, same_phase_sound r.status.phase (determine_phase_from_helm_status h))

phase-track :
    (now : ℕ) (r : Roost) → (track_roost_creation now r).status.phase ≡ started r.status.phase
unfolding track_roost_creation
phase-track now r = ground arith

phase-monitor :
    (now : ℕ) (helm : HelmStatus) (r : Roost)
    → (monitor_deployment_status now helm r).0.status.phase ≡ shown helm r.status.phase
unfolding monitor_deployment_status
phase-monitor now release_not_found r = refl
phase-monitor now (status_failed e) r = refl
phase-monitor now (release none) r = refl
phase-monitor now (release (some h)) r = phase-follow_release now r h ∙ release-shown h

followed-SameFacts :
    (now : ℕ) (helm : HelmStatus) (r : Roost)
    → SameFacts r (monitor_deployment_status now helm (track_roost_creation now r)).0
unfolding monitor_deployment_status track_roost_creation
followed-SameFacts now release_not_found r = ground arith
followed-SameFacts now (status_failed e) r = ground arith
followed-SameFacts now (release none) r = ground arith
followed-SameFacts now (release (some h)) r = ground arith

policies-is_to_go :
    (now : ℕ) (r r' : Roost)
    → SameFacts r r'
    → is_some (evaluate_teardown_policies now r') ≡ is_to_go now r r.spec.teardown_policy
unfolding evaluate_teardown_policies
policies-is_to_go now r r' same =
    policy-is_to_go now r' r'.spec.teardown_policy
    ∙ ap (λ s. is_to_go now r' s.teardown_policy) same.0
    ∙ same-is_to_go now r r' r.spec.teardown_policy same

phase-trigger_found :
    (now : ℕ) (o : Option Message) (r : Roost)
    → (trigger_found now r o).status.phase ≡ (if is_some o then tearing_down else r.status.phase)
unfolding trigger_teardown
phase-trigger_found now none r = refl
phase-trigger_found now (some reason) r = refl

phase-after_monitor :
    (now : ℕ) (helm : HelmStatus) (r : Roost)
    → let m = (monitor_deployment_status now helm (track_roost_creation now r)).0 in
      (trigger_found now m (evaluate_teardown_policies now m)).status.phase ≡ (
        if is_to_go now r r.spec.teardown_policy
        then tearing_down
        else shown helm (started r.status.phase))
phase-after_monitor now helm r =
    let t = track_roost_creation now r in
    let m = (monitor_deployment_status now helm t).0 in
    phase-trigger_found now (evaluate_teardown_policies now m) m
    ∙ rw
        (
          policies-is_to_go now r m (followed-SameFacts now helm r),
          phase-monitor now helm t,
          phase-track now r,
        )
        refl

pub phase-process_lifecycle :
    (now : ℕ) (helm : HelmStatus) (r : Roost)
    → ((process_lifecycle now helm r).0.status.phase ≡ (
        if is_error helm
        then started r.status.phase
        else if is_to_go now r r.spec.teardown_policy
        then tearing_down
        else shown helm (started r.status.phase)))
      × (((process_lifecycle now helm r).1 ≡ none) ↔ (is_error helm ≡ false))
unfolding process_lifecycle monitor_deployment_status
phase-process_lifecycle now release_not_found r =
    (phase-after_monitor now release_not_found r, ground arith)
phase-process_lifecycle now (status_failed e) r = (phase-track now r, ground arith)
phase-process_lifecycle now (release none) r =
    (phase-after_monitor now (release none) r, ground arith)
phase-process_lifecycle now (release (some h)) r =
    (phase-after_monitor now (release (some h)) r, ground arith)

spec-trigger_found :
    (now : ℕ) (o : Option Message) (r : Roost) → (trigger_found now r o).spec ≡ r.spec
unfolding trigger_teardown
spec-trigger_found now none r = refl
spec-trigger_found now (some reason) r = refl

spec-monitor :
    (now : ℕ) (helm : HelmStatus) (r : Roost)
    → (monitor_deployment_status now helm (track_roost_creation now r)).0.spec ≡ r.spec
unfolding monitor_deployment_status track_roost_creation
spec-monitor now release_not_found r = ground arith
spec-monitor now (status_failed e) r = ground arith
spec-monitor now (release none) r = ground arith
spec-monitor now (release (some h)) r = ground arith

-- the specification is never changed
pub spec-process_lifecycle :
    (now : ℕ) (helm : HelmStatus) (r : Roost) → (process_lifecycle now helm r).0.spec ≡ r.spec
unfolding process_lifecycle
spec-process_lifecycle now helm r =
    let m = (monitor_deployment_status now helm (track_roost_creation now r)).0 in
    ground
      (arith, spec-monitor now helm r, spec-trigger_found now (evaluate_teardown_policies now m) m)
