-- ===== src/Controller/Outcomes.antt =====
-- What a pass leaves behind in the phases TearingDown and Ready, and when it asks for another, in
-- controllers/managedroost_controller.go.
use roost_keeper.Prelude.{
  ◌≡◌, ◌∙◌, ◌≢◌, ◌⊎◌, ◌∷◌, ℕ, Bool, true, false, none, some, [], refl, ap, inl, inr, arith,
  Bool-cases,
}
use roost_keeper.Roost.{
  Message, Reply, ok, err, Phase, unset, pending, deploying, ready, failed, tearing_down, unknown,
  Roost,
}
use roost_keeper.Controller.{
  Kube, KubeLaws, Env, World, Outcome, object_not_found, log_call, managed_roost_finalizer, done,
  should_teardown, health_check,
}
use roost_keeper.Controller.Writes.{
  update_condition, update_status, update_roost, transition_to_phase, finish_with,
}
use roost_keeper.Controller.Progress.{handle_pending_phase, handle_deploying_phase}
use roost_keeper.Controller.Ready.{handle_ready_phase, check_ready, ready_health, ready_teardown}
use roost_keeper.Controller.Teardown.{handle_failed_phase}
use roost_keeper.Controller.Reconcile.{by_phase, reconcile_normal, reconcile}
use roost_keeper.Roost.{text, condition_true, condition_false, status_of, HelmRelease, Spec}
use roost_keeper.Lifecycle.{release, process_lifecycle, determine_phase_from_helm_status}
use roost_keeper.Lifecycle.Phases.{phase-process_lifecycle, spec-process_lifecycle, release-shown}
use roost_keeper.Lifecycle.Triggers.{no_policy-is_to_go}
use roost_keeper.Controller.{helm_needs_upgrade}
use roost_keeper.Controller.Finalizers.{is_kept}
use roost_keeper.Controller.Runs.{IsFine, status_of-update_condition, phase-update_condition}

module _ (k : Kube) (env : Env) (now : ℕ) where
  transition_to_phase-goes_on :
      (p : Phase) (m : Message) (w : World) → (transition_to_phase k env now p m w).1 ≢ done
  unfolding transition_to_phase update_status
  transition_to_phase-goes_on p m w = ground arith

  finish_with-goes_on :
      (o : Outcome) (w : World)
      → o ≢ done
      → (finish_with k env now o (update_status k env now w)).1 ≢ done
  unfolding update_status
  finish_with-goes_on o w h = ground arith

  check_ready-goes_on : (w : World) → (check_ready k env now w).1 ≢ done
  unfolding check_ready
  check_ready-goes_on w = grind (arith, transition_to_phase-goes_on, finish_with-goes_on)

  by_phase-done : (p : Phase) (w : World) → (by_phase k env now p w).1 ≡ done → p ≡ tearing_down
  unfolding handle_pending_phase handle_deploying_phase handle_ready_phase handle_failed_phase
  by_phase-done tearing_down w h = refl
  by_phase-done unset w h = absurd (transition_to_phase-goes_on pending _ w h)
  by_phase-done (unknown s) w h = absurd (transition_to_phase-goes_on pending _ w h)
  by_phase-done pending w h = absurd (grind (arith, transition_to_phase-goes_on))
  by_phase-done deploying w h =
      absurd (grind (arith, transition_to_phase-goes_on, finish_with-goes_on))
  by_phase-done ready w h = absurd (grind (arith, transition_to_phase-goes_on, check_ready-goes_on))
  by_phase-done failed w h = absurd (grind (arith, finish_with-goes_on))

  normal-done :
      (w : World) → (reconcile_normal k env now w).1 ≡ done → w.roost.status.phase ≡ tearing_down
  unfolding reconcile_normal update_roost
  normal-done w h =
      elim (Bool-cases (k.contains_finalizer w.roost.finalizers managed_roost_finalizer)) [
        | inl there ↦ by_phase-done w.roost.status.phase w (rw there at h)
        | inr absent ↦ absurd (ground arith)
      ]

  -- A pass ends without an error and without asking for another one only for an object that is not
  -- there, that is deleted, or that is in the phase TearingDown.
  pub reconcile-done :
      (r : Roost)
      → (reconcile k env now r).1 ≡ done
      → (env.fetched ≡ object_not_found)
        ⊎ (r.deletion_timestamp ≢ none)
        ⊎ (r.status.phase ≡ tearing_down)
  unfolding reconcile
  reconcile-done r h =
      let w : World = record { roost = r; stored = r; log = [] } in ground (arith, normal-done w)

module _ (k : Kube) (laws : KubeLaws k) (env : Env) (now : ℕ) where
  -- the last write of a pass over a ready roost that is not torn down
  ready_written :
      (w : World)
      → env.status_update ≡ none
      → ((ready_teardown k env now w none).0.stored.status.phase ≡ w.roost.status.phase)
        × (status_of "Ready" (ready_teardown k env now w none).0.stored.status.conditions
            ≡ some condition_true)
  unfolding update_status
  ready_written w u =
      let r' =
        update_condition k env now "Ready" condition_true "Ready" (text "All systems operational")
          w.roost in
      ground (
        arith,
        phase-update_condition k env now "Ready" condition_true "Ready"
            (text "All systems operational") w.roost,
        phase-update_condition k env now "Progressing" condition_false "Complete"
            (text "Deployment completed") r',
        status_of-update_condition k laws env now "Ready" "Progressing" condition_false "Complete"
            (text "Deployment completed") r',
        status_of-update_condition k laws env now "Ready" "Ready" condition_true "Ready"
            (text "All systems operational") w.roost,
      )

  ready_health_same :
      (w : World) (reply : Reply Bool)
      → ((ready_health k env now w reply).roost.spec ≡ w.roost.spec)
        × ((ready_health k env now w reply).roost.status.phase ≡ w.roost.status.phase)
  unfolding update_condition
  ready_health_same w (err x) = (refl, refl)
  ready_health_same w (ok true) = (refl, refl)
  ready_health_same w (ok false) = (refl, refl)

  no_teardown : (r : Roost) → r.spec.teardown_policy ≡ none → should_teardown now r ≡ none
  unfolding should_teardown
  no_teardown r t = ground arith

  check_ready_written :
      (w : World)
      → env.status_update ≡ none
      → w.roost.spec.teardown_policy ≡ none
      → ((check_ready k env now w).0.stored.status.phase ≡ w.roost.status.phase)
        × (status_of "Ready" (check_ready k env now w).0.stored.status.conditions
            ≡ some condition_true)
  unfolding check_ready
  check_ready_written w u t =
      let w' = ready_health k env now (log_call health_check w) env.check_health in
      let (same_spec, same_phase) = ready_health_same (log_call health_check w) env.check_health in
      let e = no_teardown w'.roost (ap (λ (s : Spec). s.teardown_policy) same_spec ∙ t) in
      let (a, b) = ready_written w' u in rw e (a ∙ same_phase, b)

  -- A pass over a ready roost that has the finalizer and is not deleted, with a lifecycle manager
  -- and without a teardown policy, in which nothing fails and no upgrade is due, stores the phase
  -- that Helm's release has, whatever that is, and a Ready condition that is true all the same.
  -- `SetStatusCondition` does as it is documented.
  pub ready_follows_release :
      (h : HelmRelease) (r : Roost)
      → IsFine env
      → env.has_lifecycle_manager ≡ true
      → env.helm_status ≡ release (some h)
      → env.needs_upgrade ≡ ok false
      → is_kept k r ≡ true
      → r.deletion_timestamp ≡ none
      → r.status.phase ≡ ready
      → r.spec.teardown_policy ≡ none
      → ((reconcile k env now r).0.stored.status.phase ≡ determine_phase_from_helm_status h)
        × (status_of "Ready" (reconcile k env now r).0.stored.status.conditions
            ≡ some condition_true)
  unfolding reconcile reconcile_normal handle_ready_phase
  ready_follows_release h r fine m s u kept alive p t =
      let r' = (process_lifecycle now (release (some h)) r).0 in
      let w : World = record { roost = r'; stored = r; log = helm_needs_upgrade ∷ [] } in
      let same_policy =
        ap (λ (s : Spec). s.teardown_policy) (spec-process_lifecycle now (release (some h)) r) in
      ground (
        arith,
        check_ready_written w,
        phase-process_lifecycle now (release (some h)) r,
        no_policy-is_to_go now r,
        release-shown h,
        same_policy,
      )
