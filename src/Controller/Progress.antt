-- ===== src/Controller/Progress.antt =====
-- The handlers of the phases Pending and Deploying of
-- controllers/managedroost_controller.go.
use roost_keeper.Prelude.{ℕ, Option, Bool, true, false, none, some}
use roost_keeper.Roost.{
  Message, text, about, Reply, ok, err, deploying, ready, failed, condition_true,
}
use roost_keeper.Controller.{
  Kube, Env, World, Pass, helm_exists, helm_install, event, after, fast_requeue_interval, log_call,
  set_roost, validate_spec,
}
use roost_keeper.Controller.Writes.{
  update_condition, update_status, finish_with, transition_to_phase,
}

module _ (k : Kube) (env : Env) (now : ℕ) where
  abbrev pub pending_exists : World → Reply Bool → Pass
  pending_exists w (err e) =
      transition_to_phase k env now failed (about "Failed to check release: %v" e) w
  pending_exists w (ok true) =
      transition_to_phase k env now ready (text "Helm release already exists") w
  pending_exists w (ok false) =
      transition_to_phase k env now deploying (text "Starting Helm chart deployment") w

  abbrev pub pending_validated : World → Option Message → Pass
  pending_validated w (some e) =
      transition_to_phase k env now failed (about "Validation failed: %v" e)
        (log_call (event "ValidationFailed") w)
  pending_validated w none = pending_exists (log_call helm_exists w) env.release_exists

  -- `handlePendingPhase`
  unfoldable pub handle_pending_phase : World → Pass
  handle_pending_phase w = pending_validated w (validate_spec w.roost.spec)

  abbrev pub deploying_installed : World → Reply Bool → Pass
  deploying_installed w (err e) =
      transition_to_phase k env now failed (about "Installation failed: %v" e)
        (log_call (event "InstallationFailed") w)
  deploying_installed w (ok false) = finish_with k env now (after fast_requeue_interval) (
      update_status k env now (
        set_roost
          (update_condition k env now "Progressing" condition_true "Installing"
            (text "Helm installation in progress") w.roost)
          w))
  deploying_installed w (ok true) =
      transition_to_phase k env now ready (text "Helm installation completed")
        (log_call (event "InstallationCompleted") w)

  -- `handleDeployingPhase`
  unfoldable pub handle_deploying_phase : World → Pass
  handle_deploying_phase w = deploying_installed (log_call helm_install w) env.install
