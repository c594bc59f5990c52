-- ===== src/Tests/Passes.antt =====
-- Passes of controllers/managedroost_controller.go and internal/lifecycle/manager.go over concrete
-- resources.
use roost_keeper.Controller.Teardown.{reconcile_delete}
use roost_keeper.Controller.Writes.{
  update_roost, update_status, transition_to_phase, update_condition,
}
use roost_keeper.Controller.Ready.{check_ready, handle_ready_phase}
use roost_keeper.Prelude.{◌≡◌, ◌≢◌, ◌⊎◌, ◌∷◌, ℕ, List, true, false, none, some, [], refl}
use roost_keeper.Roost.{
  Roost, Phase, unset, ready, failed, tearing_down, status_of, condition_true, text,
}
use roost_keeper.Lifecycle.{determine_phase_from_helm_status}
use roost_keeper.Controller.{
  validate_spec, evaluate_teardown_trigger, first_trigger, should_teardown, Action, Outcome,
  helm_uninstall, event, managed_roost_finalizer, fail_after, fast_requeue_interval,
}
use roost_keeper.Controller.Reconcile.{reconcile_normal, reconcile}
use roost_keeper.Controller.Transitions.{reconcile-Transition}
use roost_keeper.Controller.Moves.{Transition, stored_phase}
use roost_keeper.Controller.Finalizers.{is_kept, reconcile-kept}
use roost_keeper.Controller.Deletion.{deletion, reconcile-deletion}
use roost_keeper.Controller.Runs.{run, IsFine, run-ready}
use roost_keeper.Controller.Outcomes.{ready_follows_release}
use roost_keeper.Tests.Cluster.{
  cluster, cluster_laws, new_roost, ready_roost, deleted_roost, fine_env, stuck_env, watched_env,
  failed_release, limited, roost_in,
}

-- a ready roost is torn down when its hour is over, and not before
abbrev phase_after : ℕ → Phase
phase_after now =
    stored_phase
      (reconcile cluster fine_env now (roost_in ready (managed_roost_finalizer ∷ []) limited))

over_time_test : phase_after 3_600_000_000_001 ≡ tearing_down
unfolding reconcile reconcile_normal handle_ready_phase check_ready should_teardown update_condition
    first_trigger evaluate_teardown_trigger transition_to_phase
over_time_test = refl

in_time_test : phase_after 3_600_000_000_000 ≡ ready
unfolding reconcile reconcile_normal handle_ready_phase check_ready should_teardown update_condition
    first_trigger evaluate_teardown_trigger update_status
in_time_test = refl

fine : IsFine fine_env
fine = record {
  fetched = refl;
  update = refl;
  status_update = refl;
  release_exists = refl;
  install = refl;
  uninstall = refl;
}

watched_env-IsFine : IsFine watched_env
watched_env-IsFine = record {
  fetched = refl;
  update = refl;
  status_update = refl;
  release_exists = refl;
  install = refl;
  uninstall = refl;
}

reconcile-kept_example :
    (fine_env.uninstall ≡ none)
    × (fine_env.update ≡ none)
    × ((deleted_roost.deletion_timestamp ≢ none) ⊎ (deleted_roost.status.phase ≡ tearing_down))
unfolding reconcile reconcile_delete update_roost
reconcile-kept_example = reconcile-kept cluster fine_env 50 deleted_roost refl refl

reconcile-Transition_example :
    Transition false unset (stored_phase (reconcile cluster fine_env 50 new_roost))
reconcile-Transition_example = reconcile-Transition cluster fine_env 50 new_roost

reconcile-deletion_example :
    let p = reconcile cluster stuck_env 50 deleted_roost in
    ◌≡◌ {A = Roost × Outcome × List Action}
      (p.0.stored, p.1, p.0.log)
      (
        deleted_roost,
        fail_after fast_requeue_interval (text "timed out"),
        helm_uninstall ∷ event "UninstallFailed" ∷ [],
      )
unfolding deletion
reconcile-deletion_example = reconcile-deletion cluster stuck_env 50 deleted_roost refl refl

run-ready_example :
    let r =
      run cluster ((fine_env, 1) ∷ (fine_env, 2) ∷ (fine_env, 3) ∷ (fine_env, 4) ∷ []) new_roost in
    (r.status.phase ≡ ready)
    × (is_kept cluster r ≡ true)
    × (status_of "Ready" r.status.conditions ≡ some condition_true)
unfolding validate_spec
run-ready_example =
    run-ready cluster cluster_laws fine_env 1 2 3 4 new_roost fine refl refl refl refl

ready_follows_release_example :
    (stored_phase (reconcile cluster watched_env 50 ready_roost) ≡ failed)
    × (status_of "Ready" (reconcile cluster watched_env 50 ready_roost).0.stored.status.conditions
        ≡ some condition_true)
unfolding determine_phase_from_helm_status
ready_follows_release_example =
    ready_follows_release cluster cluster_laws watched_env 50 failed_release ready_roost
      watched_env-IsFine refl refl refl refl refl refl refl
