-- ===== src/Controller/Ready.antt =====
-- The handler of the phase Ready of controllers/managedroost_controller.go.
use roost_keeper.Prelude.{if◌then◌else◌, ℕ, Option, Bool, true, false, none, some}
use roost_keeper.Roost.{
  Message, text, about, Reply, ok, err, failed, tearing_down, condition_true, condition_false,
}
use roost_keeper.Controller.{
  Kube, Env, World, Pass, helm_needs_upgrade, helm_upgrade, health_check, event, after, fail_after,
  default_requeue_interval, log_call, set_roost, should_teardown,
}
use roost_keeper.Controller.Writes.{
  update_condition, update_status, finish_with, transition_to_phase,
}
use roost_keeper.Lifecycle.{process_lifecycle}

module _ (k : Kube) (env : Env) (now : ℕ) where
  -- the lifecycle manager works on the object in memory; its error is only logged
  abbrev pub ready_lifecycle : World → World
  ready_lifecycle w =
      if env.has_lifecycle_manager
      then set_roost (process_lifecycle now env.helm_status w.roost).0 w
      else w

  abbrev pub ready_health : World → Reply Bool → World
  ready_health w (err e) =
      set_roost
        (update_condition k env now "Healthy" condition_false "HealthCheckError"
          (about "Health check error: %v" e) w.roost)
        w
  ready_health w (ok false) =
      set_roost
        (update_condition k env now "Healthy" condition_false "Unhealthy"
          (text "Health checks are failing") w.roost)
        w
  ready_health w (ok true) =
      set_roost
        (update_condition k env now "Healthy" condition_true "Healthy"
          (text "Health checks passing") w.roost)
        w

  abbrev pub ready_teardown : World → Option Message → Pass
  ready_teardown w (some reason) =
      transition_to_phase k env now tearing_down reason (log_call (event "TeardownTriggered") w)
  ready_teardown w none = finish_with k env now (after default_requeue_interval) (
      update_status k env now (
        set_roost
          (update_condition k env now "Progressing" condition_false "Complete"
            (text "Deployment completed")
            (update_condition k env now "Ready" condition_true "Ready"
              (text "All systems operational") w.roost))
          w))

  -- from the health checks to the end of `handleReadyPhase`
  unfoldable pub check_ready : World → Pass
  check_ready w =
      let w' = ready_health (log_call health_check w) env.check_health in
      ready_teardown w' (should_teardown now w'.roost)

  abbrev pub ready_upgraded : World → Option Message → Pass
  ready_upgraded w (some e) =
      transition_to_phase k env now failed (about "Upgrade failed: %v" e)
        (log_call (event "UpgradeFailed") w)
  ready_upgraded w none = check_ready (log_call (event "UpgradeCompleted") w)

  abbrev pub ready_needs : World → Reply Bool → Pass
  ready_needs w (err e) = (w, fail_after default_requeue_interval e)
  ready_needs w (ok false) = check_ready w
  ready_needs w (ok true) =
      ready_upgraded (log_call helm_upgrade (log_call (event "UpgradeStarted") w)) env.upgrade

  -- `handleReadyPhase`
  unfoldable pub handle_ready_phase : World → Pass
  handle_ready_phase w =
      ready_needs (log_call helm_needs_upgrade (ready_lifecycle w)) env.needs_upgrade
