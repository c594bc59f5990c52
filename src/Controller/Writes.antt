-- ===== src/Controller/Writes.antt =====
-- How a pass of controllers/managedroost_controller.go writes the object: conditions, status,
-- finalizers, and the change of phase.
use roost_keeper.Prelude.{ℕ, String, Option, none, some}
use roost_keeper.Roost.{
  Message, Phase, pending, deploying, ready, failed, ConditionStatus, condition_true,
  condition_false, Roost,
}
use roost_keeper.Controller.{
  Kube, Env, World, Outcome, Pass, update_object, update_status_call, event, requeue_now, fail_with,
  log_call, set_roost,
}

module _ (k : Kube) (env : Env) (now : ℕ) where
  -- `updateCondition`
  unfoldable pub update_condition : String → ConditionStatus → String → Message → Roost → Roost
  update_condition type_ status reason message r = record r {
    status = record (r.status) {
      conditions = k.set_status_condition r.status.conditions (record {
        type_ = type_;
        status = status;
        observed_generation = r.generation;
        last_transition_time = now;
        reason = reason;
        message = message;
      });
    };
  }

  abbrev pub observe : World → World
  observe w =
      let r = w.roost in
      record w {
        roost = record r { status = record (r.status) { observed_generation = r.generation } };
      }

  abbrev pub written_status : World → Option Message → World
  written_status w (some e) = w
  written_status w none = record w { stored = record (w.stored) { status = w.roost.status } }

  -- `updateStatus`: the status alone is written
  unfoldable pub update_status : World → World × Option Message
  update_status w = (
    written_status (log_call update_status_call (observe w)) env.status_update,
    env.status_update,
  )

  -- the last lines of a handler: write the status, and stop if that fails
  abbrev pub finish_with : Outcome → World × Option Message → Pass
  finish_with o (w, some e) = (w, fail_with e)
  finish_with o (w, none) = (w, o)

  abbrev pub written_object : World → Option Message → World
  written_object w (some e) = w
  written_object w none = record w {
    stored = record (w.stored) { finalizers = w.roost.finalizers };
  }

  -- `r.Update`: metadata and specification are written, of which the reconciler changes the
  -- finalizers alone
  unfoldable pub update_roost : World → World × Option Message
  update_roost w = (written_object (log_call update_object w) env.update, env.update)

  -- the conditions that `transitionToPhase` sets
  abbrev pub phase_conditions : Phase → Message → Roost → Roost
  phase_conditions pending reason r =
      update_condition "Progressing" condition_true "Pending" reason r
  phase_conditions deploying reason r =
      update_condition "Progressing" condition_true "Deploying" reason r
  phase_conditions ready reason r =
      update_condition "Progressing" condition_false "Complete" reason
        (update_condition "Ready" condition_true "Ready" reason r)
  phase_conditions failed reason r =
      update_condition "Progressing" condition_false "Failed" reason
        (update_condition "Ready" condition_false "Failed" reason r)
  phase_conditions _ reason r = r

  abbrev pub transitioned : World × Option Message → Pass
  transitioned (w, some e) = (w, fail_with e)
  transitioned (w, none) = (log_call (event "PhaseTransition") w, requeue_now)

  -- `transitionToPhase`
  unfoldable pub transition_to_phase : Phase → Message → World → Pass
  unfolding update_status
  transition_to_phase p reason w =
      let r = w.roost in
      let r' = record r { status = record (r.status) { phase = p; last_update_time = some now } } in
      transitioned (update_status (set_roost (phase_conditions p reason r') w))
