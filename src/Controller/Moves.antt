-- ===== src/Controller/Moves.antt =====
-- The edges between the phases of controllers/managedroost_controller.go, and how the writes of a
-- pass and the handlers of Pending and Deploying follow them.
use roost_keeper.Prelude.{
  ◌≡◌, ◌∙◌, ◌⊎◌, ℕ, String, Option, Bool, true, false, none, some, inl, inr, arith,
}
use roost_keeper.Roost.{
  Message, Reply, ok, err, Phase, unset, pending, deploying, ready, failed, tearing_down, unknown,
}
use roost_keeper.Controller.{Kube, Env, World, Outcome, Pass, log_call, helm_exists}
use roost_keeper.Controller.Writes.{
  update_condition, update_status, transition_to_phase, finish_with,
}
use roost_keeper.Controller.Progress.{pending_exists, pending_validated, deploying_installed}

-- the stored phase before and after a pass; `lifecycle` tells whether there is a lifecycle manager
pub data Transition (lifecycle : Bool) : Phase → Phase → Type 0 where
  stay : {p : Phase} → Transition lifecycle p p
  initialise : Transition lifecycle unset pending
  start_over : {s : String} → Transition lifecycle (unknown s) pending
  reject : Transition lifecycle pending failed
  adopt : Transition lifecycle pending ready
  deploy : Transition lifecycle pending deploying
  install : Transition lifecycle deploying ready
  give_up : Transition lifecycle deploying failed
  lose : Transition lifecycle ready failed
  tear_down : Transition lifecycle ready tearing_down
  follow : {p : Phase} → lifecycle ≡ true → Transition lifecycle ready p

abbrev pub stored_phase : Pass → Phase
stored_phase p = p.0.stored.status.phase

module _ (k : Kube) (env : Env) (now : ℕ) where
  stored-transition_to_phase :
      (p : Phase) (reason : Message) (w : World)
      → (stored_phase (transition_to_phase k env now p reason w) ≡ w.stored.status.phase)
        ⊎ (stored_phase (transition_to_phase k env now p reason w) ≡ p)
  unfolding transition_to_phase update_status update_condition
  stored-transition_to_phase p reason w = ground arith

  pub moved :
      {q : Phase} (p : Phase) (reason : Message) (w : World)
      → w.stored.status.phase ≡ q
      → Transition env.has_lifecycle_manager q p
      → Transition env.has_lifecycle_manager q
          (stored_phase (transition_to_phase k env now p reason w))
  moved p reason w e t = elim (stored-transition_to_phase p reason w) [
    | inl same ↦ rw (same ∙ e) stay
    | inr new ↦ rw new t
  ]

  abbrev pub Reaches : Phase → Pass → Type 0
  Reaches q p = Transition env.has_lifecycle_manager q (stored_phase p)

  pending_exists-Transition :
      (w : World) (r : Reply Bool)
      → w.stored.status.phase ≡ pending
      → Reaches pending (pending_exists k env now w r)
  pending_exists-Transition w (err x) e = moved _ _ _ e reject
  pending_exists-Transition w (ok true) e = moved _ _ _ e adopt
  pending_exists-Transition w (ok false) e = moved _ _ _ e deploy

  pub pending_validated-Transition :
      (w : World) (o : Option Message)
      → w.stored.status.phase ≡ pending
      → Reaches pending (pending_validated k env now w o)
  pending_validated-Transition w (some x) e = moved _ _ _ e reject
  pending_validated-Transition w none e =
      pending_exists-Transition (log_call helm_exists w) env.release_exists e

  stored-finish_with :
      (o : Outcome) (w : World)
      → (stored_phase (finish_with k env now o (update_status k env now w)) ≡ w.stored.status.phase)
        ⊎ (stored_phase (finish_with k env now o (update_status k env now w))
            ≡ w.roost.status.phase)
  unfolding update_status
  stored-finish_with o w = ground arith

  pub finish_with-Transition :
      (q : Phase) (o : Outcome) (w : World)
      → w.stored.status.phase ≡ q
      → Transition env.has_lifecycle_manager q w.roost.status.phase
      → Reaches q (finish_with k env now o (update_status k env now w))
  finish_with-Transition q o w e t = elim (stored-finish_with o w) [
    | inl same ↦ rw (same ∙ e) stay
    | inr new ↦ rw new t
  ]

  pub deploying_installed-Transition :
      (w : World) (r : Reply Bool)
      → w.stored.status.phase ≡ deploying
      → w.roost.status.phase ≡ deploying
      → Reaches deploying (deploying_installed k env now w r)
  unfolding update_condition
  deploying_installed-Transition w (err x) e m = moved _ _ _ e give_up
  deploying_installed-Transition w (ok true) e m = moved _ _ _ e install
  deploying_installed-Transition w (ok false) e m =
      finish_with-Transition deploying _ _ e (rw m stay)
