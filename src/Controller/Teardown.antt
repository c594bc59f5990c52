-- ===== src/Controller/Teardown.antt =====
-- The handlers of the phases Failed and TearingDown, and of a deleted object:
-- controllers/managedroost_controller.go.
use roost_keeper.Prelude.{if◌then◌else◌, ℕ, String, Option, none, some}
use roost_keeper.Roost.{Message, text, condition_false}
use roost_keeper.Controller.{
  Kube, Env, World, Pass, helm_uninstall, event, done, after, fail_after, fast_requeue_interval,
  slow_requeue_interval, managed_roost_finalizer, log_call, set_roost,
}
use roost_keeper.Controller.Writes.{update_condition, update_status, finish_with, update_roost}

module _ (k : Kube) (env : Env) (now : ℕ) where
  -- `handleFailedPhase`
  unfoldable pub handle_failed_phase : World → Pass
  handle_failed_phase w = finish_with k env now (after slow_requeue_interval) (
      update_status k env now (
        set_roost
          (update_condition k env now "Progressing" condition_false "Failed"
            (text "Operation failed")
            (update_condition k env now "Ready" condition_false "Failed"
              (text "ManagedRoost has failed") w.roost))
          w))

  abbrev pub finalizer_dropped : World → World × Option Message
  finalizer_dropped w =
      let r = w.roost in
      update_roost k env now (
        set_roost
          (record r { finalizers = k.remove_finalizer r.finalizers managed_roost_finalizer }) w)

  -- the same lines end `handleTearingDownPhase` and `reconcileDelete`: uninstall, emit an event,
  -- and remove the finalizer
  abbrev pub torn_down : String → World → Option Message → Pass
  torn_down completed w (some e) =
      (log_call (event "UninstallFailed") w, fail_after fast_requeue_interval e)
  torn_down completed w none =
      finish_with k env now done (finalizer_dropped (log_call (event completed) w))

  -- `handleTearingDownPhase`
  unfoldable pub handle_tearing_down_phase : World → Pass
  handle_tearing_down_phase w =
      torn_down "TeardownCompleted" (log_call helm_uninstall w) env.uninstall

  -- `reconcileDelete`
  unfoldable pub reconcile_delete : World → Pass
  reconcile_delete w =
      if k.contains_finalizer w.roost.finalizers managed_roost_finalizer
      then torn_down "UninstallCompleted" (log_call helm_uninstall w) env.uninstall
      else (w, done)
