-- ===== src/Controller/Finalizers.antt =====
-- When controllers/managedroost_controller.go lets a roost go.
use roost_keeper.Prelude.{
  ◌≡◌, ◌≢◌, ◌⊎◌, ℕ, String, Option, Bool, true, false, none, some, [], refl, inl, inr, arith,
  Bool-cases,
}
use roost_keeper.Roost.{
  text, Message, Phase, unset, pending, deploying, ready, failed, tearing_down, unknown, Roost,
}
use roost_keeper.Controller.{
  Kube, Env, World, Outcome, log_call, helm_uninstall, managed_roost_finalizer,
}
use roost_keeper.Controller.Writes.{update_status, update_roost, transition_to_phase, finish_with}
use roost_keeper.Controller.Progress.{handle_pending_phase, handle_deploying_phase}
use roost_keeper.Controller.Ready.{handle_ready_phase, check_ready}
use roost_keeper.Controller.Teardown.{
  handle_failed_phase, handle_tearing_down_phase, reconcile_delete, torn_down,
}
use roost_keeper.Controller.Reconcile.{by_phase, reconcile_normal, reconcile}

-- whether the stored object still has the finalizer that keeps it from being deleted
abbrev pub is_kept : Kube → Roost → Bool
is_kept k r = k.contains_finalizer r.finalizers managed_roost_finalizer

module _ (k : Kube) (env : Env) (now : ℕ) where
  transition_to_phase-finalizers :
      (p : Phase) (reason : Message) (w : World)
      → (transition_to_phase k env now p reason w).0.stored.finalizers ≡ w.stored.finalizers
  unfolding transition_to_phase update_status
  transition_to_phase-finalizers p reason w = ground arith

  finish_with-finalizers :
      (o : Outcome) (w : World)
      → (finish_with k env now o (update_status k env now w)).0.stored.finalizers
        ≡ w.stored.finalizers
  unfolding update_status
  finish_with-finalizers o w = ground arith

  pending-finalizers :
      (w : World) → (handle_pending_phase k env now w).0.stored.finalizers ≡ w.stored.finalizers
  unfolding handle_pending_phase
  pending-finalizers w = grind (arith, transition_to_phase-finalizers)

  deploying-finalizers :
      (w : World) → (handle_deploying_phase k env now w).0.stored.finalizers ≡ w.stored.finalizers
  unfolding handle_deploying_phase
  deploying-finalizers w = grind (arith, transition_to_phase-finalizers, finish_with-finalizers)

  check_ready-finalizers :
      (w : World) → (check_ready k env now w).0.stored.finalizers ≡ w.stored.finalizers
  unfolding check_ready
  check_ready-finalizers w = grind (arith, transition_to_phase-finalizers, finish_with-finalizers)

  ready-finalizers :
      (w : World) → (handle_ready_phase k env now w).0.stored.finalizers ≡ w.stored.finalizers
  unfolding handle_ready_phase
  ready-finalizers w = grind (arith, transition_to_phase-finalizers, check_ready-finalizers)

  failed-finalizers :
      (w : World) → (handle_failed_phase k env now w).0.stored.finalizers ≡ w.stored.finalizers
  unfolding handle_failed_phase
  failed-finalizers w = grind (arith, finish_with-finalizers)

  -- after an uninstall that failed nothing is written
  torn_down-finalizers :
      (completed : String) (w : World) (o : Option Message)
      → o ≢ none
      → (torn_down k env now completed w o).0.stored.finalizers ≡ w.stored.finalizers
  torn_down-finalizers completed w (some e) h = refl
  torn_down-finalizers completed w none h = absurd (h refl)

  torn_down-kept :
      (completed : String) (w : World) (o : Option Message)
      → is_kept k w.stored ≡ true
      → is_kept k (torn_down k env now completed w o).0.stored ≡ false
      → (o ≡ none) × (env.update ≡ none)
  unfolding update_roost
  torn_down-kept completed w o b a = ground arith

  by_phase-kept :
      (p : Phase) (w : World)
      → is_kept k w.stored ≡ true
      → is_kept k (by_phase k env now p w).0.stored ≡ false
      → (p ≡ tearing_down) × (env.uninstall ≡ none) × (env.update ≡ none)
  unfolding handle_tearing_down_phase
  by_phase-kept tearing_down w b a =
      let (u, v) =
        torn_down-kept "TeardownCompleted" (log_call helm_uninstall w) env.uninstall b a in
      (refl, u, v)
  by_phase-kept pending w b a = cc (pending-finalizers w)
  by_phase-kept deploying w b a = cc (deploying-finalizers w)
  by_phase-kept ready w b a = cc (ready-finalizers w)
  by_phase-kept failed w b a = cc (failed-finalizers w)
  by_phase-kept unset w b a =
      cc (transition_to_phase-finalizers pending (text "Initializing ManagedRoost") w)
  by_phase-kept (unknown s) w b a =
      cc (transition_to_phase-finalizers pending (text "Unknown phase detected, resetting") w)

  normal-kept :
      (w : World)
      → is_kept k w.stored ≡ true
      → w.roost.finalizers ≡ w.stored.finalizers
      → is_kept k (reconcile_normal k env now w).0.stored ≡ false
      → (w.roost.status.phase ≡ tearing_down) × (env.uninstall ≡ none) × (env.update ≡ none)
  unfolding reconcile_normal
  normal-kept w b e a =
      elim (Bool-cases (k.contains_finalizer w.roost.finalizers managed_roost_finalizer)) [
        | inl there ↦ by_phase-kept w.roost.status.phase w b (rw there at a)
        | inr absent ↦ cc
      ]

  delete-kept :
      (w : World)
      → is_kept k w.stored ≡ true
      → is_kept k (reconcile_delete k env now w).0.stored ≡ false
      → (env.uninstall ≡ none) × (env.update ≡ none)
  unfolding reconcile_delete
  delete-kept w b a =
      elim (Bool-cases (k.contains_finalizer w.roost.finalizers managed_roost_finalizer)) [
        | inl there ↦
            torn_down-kept "UninstallCompleted" (log_call helm_uninstall w) env.uninstall b
              (rw there at a)
        | inr absent ↦ ground arith
      ]

  -- A pass takes the finalizer off the stored object only if Helm's uninstall and the write of the
  -- object succeeded, and only for a deleted object or in the phase TearingDown.
  pub reconcile-kept :
      (r : Roost)
      → is_kept k r ≡ true
      → is_kept k (reconcile k env now r).0.stored ≡ false
      → (env.uninstall ≡ none)
        × (env.update ≡ none)
        × ((r.deletion_timestamp ≢ none) ⊎ (r.status.phase ≡ tearing_down))
  unfolding reconcile
  reconcile-kept r b a =
      let w : World = record { roost = r; stored = r; log = [] } in
      ground (arith, normal-kept w b refl, delete-kept w b)
