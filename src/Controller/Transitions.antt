-- ===== src/Controller/Transitions.antt =====
-- Which phases follow one another in controllers/managedroost_controller.go.
use roost_keeper.Prelude.{
  ◌≡◌, ◌∙◌, ℕ, String, Option, Bool, true, false, none, some, refl, ap, inl, inr, arith, Bool-cases,
}
use roost_keeper.Roost.{
  Message, Reply, ok, err, Phase, unset, pending, deploying, ready, failed, tearing_down, unknown,
  Roost,
}
use roost_keeper.Controller.{
  Kube, Env, World, Fetched, found, health_check, helm_upgrade, event, managed_roost_finalizer,
  object_not_found, get_failed, log_call, helm_install, helm_uninstall, should_teardown,
  validate_spec,
}
use roost_keeper.Controller.Writes.{update_condition, update_roost}
use roost_keeper.Controller.Progress.{handle_pending_phase, handle_deploying_phase}
use roost_keeper.Controller.Ready.{
  handle_ready_phase, check_ready, ready_health, ready_teardown, ready_upgraded, ready_needs,
  ready_lifecycle,
}
use roost_keeper.Controller.Teardown.{
  handle_failed_phase, handle_tearing_down_phase, reconcile_delete, torn_down,
}
use roost_keeper.Controller.Reconcile.{
  by_phase, finalizer_added, reconcile_found, reconcile_fetched, reconcile_normal, reconcile,
}
use roost_keeper.Controller.Moves.{
  Transition, stay, initialise, start_over, lose, tear_down, follow, stored_phase, Reaches, moved,
  finish_with-Transition, pending_validated-Transition, deploying_installed-Transition,
}

module _ (k : Kube) (env : Env) (now : ℕ) where
  ready_teardown-Transition :
      (w : World) (o : Option Message)
      → w.stored.status.phase ≡ ready
      → Transition env.has_lifecycle_manager ready w.roost.status.phase
      → Reaches k env now ready (ready_teardown k env now w o)
  unfolding update_condition
  ready_teardown-Transition w (some x) e t = moved k env now _ _ _ e tear_down
  ready_teardown-Transition w none e t = finish_with-Transition k env now ready _ _ e t

  check_ready-Transition :
      (w : World)
      → w.stored.status.phase ≡ ready
      → Transition env.has_lifecycle_manager ready w.roost.status.phase
      → Reaches k env now ready (check_ready k env now w)
  unfolding check_ready update_condition
  check_ready-Transition w e t = go env.check_health
    where
      go :
          (r : Reply Bool)
          → let w' = ready_health k env now (log_call health_check w) r in
            Reaches k env now ready (ready_teardown k env now w' (should_teardown now w'.roost))
      go (err x) = ready_teardown-Transition _ (should_teardown now _) e t
      go (ok true) = ready_teardown-Transition _ (should_teardown now _) e t
      go (ok false) = ready_teardown-Transition _ (should_teardown now _) e t

  ready_needs-Transition :
      (w : World) (r : Reply Bool)
      → w.stored.status.phase ≡ ready
      → Transition env.has_lifecycle_manager ready w.roost.status.phase
      → Reaches k env now ready (ready_needs k env now w r)
  ready_needs-Transition w (err x) e t = rw e stay
  ready_needs-Transition w (ok false) e t = check_ready-Transition w e t
  ready_needs-Transition w (ok true) e t = go env.upgrade
    where
      started : World
      started = log_call helm_upgrade (log_call (event "UpgradeStarted") w)

      go : (o : Option Message) → Reaches k env now ready (ready_upgraded k env now started o)
      go (some x) = moved k env now _ _ _ e lose
      go none = check_ready-Transition _ e t

  ready_lifecycle-Transition :
      (w : World)
      → w.roost.status.phase ≡ ready
      → Transition env.has_lifecycle_manager ready (ready_lifecycle k env now w).roost.status.phase
  ready_lifecycle-Transition w m = elim (Bool-cases env.has_lifecycle_manager) [
    | inl there ↦ follow there
    | inr absent ↦ rw absent (rw m stay)
  ]

  stored-ready_lifecycle : (w : World) → (ready_lifecycle k env now w).stored ≡ w.stored
  stored-ready_lifecycle w = ground arith

  stored-torn_down :
      (completed : String) (w : World) (o : Option Message)
      → stored_phase (torn_down k env now completed w o) ≡ w.stored.status.phase
  unfolding update_roost
  stored-torn_down completed w o = ground arith

  torn_down-Transition :
      (q : Phase) (completed : String) (w : World) (o : Option Message)
      → w.stored.status.phase ≡ q
      → Reaches k env now q (torn_down k env now completed w o)
  torn_down-Transition q completed w o e = rw (stored-torn_down completed w o ∙ e) stay

  by_phase-Transition :
      (w : World) (q : Phase)
      → w.stored.status.phase ≡ q
      → w.roost.status.phase ≡ q
      → Reaches k env now q (by_phase k env now q w)
  unfolding handle_pending_phase handle_deploying_phase handle_ready_phase handle_failed_phase
      handle_tearing_down_phase update_condition
  by_phase-Transition w unset e m = moved k env now _ _ _ e initialise
  by_phase-Transition w (unknown s) e m = moved k env now _ _ _ e start_over
  by_phase-Transition w pending e m =
      pending_validated-Transition k env now w (validate_spec w.roost.spec) e
  by_phase-Transition w deploying e m =
      deploying_installed-Transition k env now (log_call helm_install w) env.install e m
  by_phase-Transition w ready e m =
      ready_needs-Transition _ env.needs_upgrade
        (ap (λ r. r.status.phase) (stored-ready_lifecycle w) ∙ e) (ready_lifecycle-Transition w m)
  by_phase-Transition w failed e m = finish_with-Transition k env now failed _ _ e (rw m stay)
  by_phase-Transition w tearing_down e m =
      torn_down-Transition tearing_down _ (log_call helm_uninstall w) env.uninstall e

  stored-finalizer_added :
      (w : World)
      → stored_phase (finalizer_added k env now (update_roost k env now w)) ≡ w.stored.status.phase
  unfolding update_roost
  stored-finalizer_added w = ground arith

  finalizer_added-Transition :
      (q : Phase) (w : World)
      → w.stored.status.phase ≡ q
      → Reaches k env now q (finalizer_added k env now (update_roost k env now w))
  finalizer_added-Transition q w e = rw (stored-finalizer_added w ∙ e) stay

  reconcile_normal-Transition :
      (w : World)
      → w.stored.status.phase ≡ w.roost.status.phase
      → Reaches k env now w.roost.status.phase (reconcile_normal k env now w)
  unfolding reconcile_normal
  reconcile_normal-Transition w e =
      elim (Bool-cases (k.contains_finalizer w.roost.finalizers managed_roost_finalizer)) [
        | inl there ↦ rw there (by_phase-Transition w w.roost.status.phase e refl)
        | inr absent ↦ rw absent (finalizer_added-Transition _ _ e)
      ]

  reconcile_delete-Transition :
      (w : World)
      → w.stored.status.phase ≡ w.roost.status.phase
      → Reaches k env now w.roost.status.phase (reconcile_delete k env now w)
  unfolding reconcile_delete
  reconcile_delete-Transition w e =
      elim (Bool-cases (k.contains_finalizer w.roost.finalizers managed_roost_finalizer)) [
        | inl there ↦ rw there (torn_down-Transition _ _ _ env.uninstall e)
        | inr absent ↦ rw absent (rw e stay)
      ]

  reconcile_found-Transition :
      (d : Option ℕ) (w : World)
      → w.stored.status.phase ≡ w.roost.status.phase
      → Reaches k env now w.roost.status.phase (reconcile_found k env now d w)
  reconcile_found-Transition (some t) w e = reconcile_delete-Transition w e
  reconcile_found-Transition none w e = reconcile_normal-Transition w e

  reconcile_fetched-Transition :
      (f : Fetched) (w : World)
      → w.stored.status.phase ≡ w.roost.status.phase
      → Reaches k env now w.roost.status.phase (reconcile_fetched k env now w f)
  reconcile_fetched-Transition object_not_found w e = rw e stay
  reconcile_fetched-Transition (get_failed x) w e = rw e stay
  reconcile_fetched-Transition found w e = reconcile_found-Transition w.roost.deletion_timestamp w e

  -- Whatever the calls return, a pass leaves the stored phase or moves it along an edge: there is
  -- no way out of Failed and TearingDown, Deploying is entered from Pending alone, and only a
  -- lifecycle manager moves a ready roost anywhere but to Failed and TearingDown.
  pub reconcile-Transition :
      (stored : Roost)
      → Transition env.has_lifecycle_manager stored.status.phase
          (stored_phase (reconcile k env now stored))
  unfolding reconcile
  reconcile-Transition stored = reconcile_fetched-Transition env.fetched _ refl
