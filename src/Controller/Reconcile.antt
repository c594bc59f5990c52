-- ===== src/Controller/Reconcile.antt =====
-- `Reconcile` and `reconcileNormal` of controllers/managedroost_controller.go.
use roost_keeper.Prelude.{if◌then◌else◌, ℕ, Option, none, some, []}
use roost_keeper.Roost.{
  Message, text, Phase, unset, pending, deploying, ready, failed, tearing_down, unknown, Roost,
}
use roost_keeper.Controller.{
  Kube, Env, World, Pass, Fetched, found, object_not_found, get_failed, event, done, requeue_now,
  fail_with, managed_roost_finalizer, log_call, set_roost,
}
use roost_keeper.Controller.Writes.{update_roost, transition_to_phase}
use roost_keeper.Controller.Progress.{handle_pending_phase, handle_deploying_phase}
use roost_keeper.Controller.Ready.{handle_ready_phase}
use roost_keeper.Controller.Teardown.{
  handle_failed_phase, handle_tearing_down_phase, reconcile_delete,
}

module _ (k : Kube) (env : Env) (now : ℕ) where
  -- the `switch` of `reconcileNormal`, and the test for an unset phase before it
  abbrev pub by_phase : Phase → World → Pass
  by_phase unset w = transition_to_phase k env now pending (text "Initializing ManagedRoost") w
  by_phase pending w = handle_pending_phase k env now w
  by_phase deploying w = handle_deploying_phase k env now w
  by_phase ready w = handle_ready_phase k env now w
  by_phase failed w = handle_failed_phase k env now w
  by_phase tearing_down w = handle_tearing_down_phase k env now w
  by_phase (unknown s) w =
      transition_to_phase k env now pending (text "Unknown phase detected, resetting") w

  abbrev pub finalizer_added : World × Option Message → Pass
  finalizer_added (w, some e) = (w, fail_with e)
  finalizer_added (w, none) = (log_call (event "FinalizerAdded") w, requeue_now)

  -- `reconcileNormal`
  unfoldable pub reconcile_normal : World → Pass
  reconcile_normal w =
      let r = w.roost in
      if k.contains_finalizer r.finalizers managed_roost_finalizer
      then by_phase r.status.phase w
      else finalizer_added (
          update_roost k env now (
            set_roost
              (record r { finalizers = k.add_finalizer r.finalizers managed_roost_finalizer }) w))

  abbrev pub reconcile_found : Option ℕ → World → Pass
  reconcile_found (some t) w = reconcile_delete k env now w
  reconcile_found none w = reconcile_normal w

  abbrev pub reconcile_fetched : World → Fetched → Pass
  reconcile_fetched w object_not_found = (w, done)
  reconcile_fetched w (get_failed e) = (w, fail_with e)
  reconcile_fetched w found = reconcile_found w.roost.deletion_timestamp w

  -- `Reconcile`, on the stored object
  unfoldable pub reconcile : Roost → Pass
  reconcile stored =
      reconcile_fetched (record { roost = stored; stored = stored; log = [] }) env.fetched
