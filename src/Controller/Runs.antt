-- ===== src/Controller/Runs.antt =====
-- Passes one after another over a stored roost, in controllers/managedroost_controller.go.
use roost_keeper.Prelude.{
  ◌≡◌, ◌∙◌, ◌⊎◌, ◌∷◌, if◌then◌else◌, ℕ, String, List, Bool, true, false, none, some, [], refl, ap,
  inl, inr, arith, str_eq,
}
use roost_keeper.Roost.{
  text, Message, ok, Phase, unset, pending, deploying, ready, failed, tearing_down, Roost,
}
use roost_keeper.Controller.{
  Kube, KubeLaws, Env, World, found, event, managed_roost_finalizer, requeue_now, validate_spec,
}
use roost_keeper.Controller.Writes.{
  update_condition, update_status, update_roost, transition_to_phase,
}
use roost_keeper.Controller.Progress.{handle_pending_phase, handle_deploying_phase}
use roost_keeper.Controller.Reconcile.{reconcile_normal, reconcile}
use roost_keeper.Roost.{text, condition_true, condition_false, ConditionStatus, status_of}
use roost_keeper.Controller.{helm_install}
use roost_keeper.Controller.Finalizers.{is_kept}
use roost_keeper.Controller.Deletion.{with_finalizer}
use roost_keeper.Controller.Transitions.{reconcile-Transition}
use roost_keeper.Controller.Moves.{
  initialise, start_over, reject, adopt, deploy, install, give_up, lose, tear_down, Transition,
  stay, follow, stored_phase,
}

-- the stored roost after passes that may each see other answers
unfoldable pub run : Kube → List (Env × ℕ) → Roost → Roost
run k [] r = r
run k ((env, now) ∷ steps) r = run k steps (reconcile k env now r).0.stored

abbrev is_final : Phase → Bool
is_final failed = true
is_final tearing_down = true
is_final _ = false

no_way_out : {l : Bool} {p q : Phase} → Transition l p q → is_final p ≡ true → q ≡ p
no_way_out stay e = refl
no_way_out initialise e = cc
no_way_out start_over e = cc
no_way_out reject e = cc
no_way_out adopt e = cc
no_way_out deploy e = cc
no_way_out install e = cc
no_way_out give_up e = cc
no_way_out lose e = cc
no_way_out tear_down e = cc
no_way_out (follow h) e = cc

-- Whatever the calls of its passes return, a roost that is Failed stays Failed, and one that is
-- TearingDown stays TearingDown.
pub run-is_final :
    (k : Kube) (steps : List (Env × ℕ)) (r : Roost)
    → is_final r.status.phase ≡ true
    → (run k steps r).status.phase ≡ r.status.phase
unfolding run
run-is_final k [] r h = refl
run-is_final k ((env, now) ∷ steps) r h =
    let r' = (reconcile k env now r).0.stored in
    let same = no_way_out (reconcile-Transition k env now r) h in
    run-is_final k steps r' (ap is_final same ∙ h) ∙ same

-- all calls on the cluster succeed, and so do Helm's
pub record IsFine (env : Env) : Type 0 where
  pub fetched : env.fetched ≡ found
  pub update : env.update ≡ none
  pub status_update : env.status_update ≡ none
  pub release_exists : env.release_exists ≡ ok false
  pub install : env.install ≡ ok true
  pub uninstall : env.uninstall ≡ none

-- a roost with the finalizer that nobody has deleted, with a chart to install
pub record IsLive (k : Kube) (r : Roost) : Type 0 where
  pub kept : is_kept k r ≡ true
  pub alive : r.deletion_timestamp ≡ none
  pub valid : validate_spec r.spec ≡ none

-- the next phase on the way to Ready
abbrev next : Phase → Phase
next unset = pending
next pending = deploying
next deploying = ready
next p = p

-- the conditions as the reconciler leaves them, by the law of `SetStatusCondition`
pub status_of-update_condition :
    (k : Kube) (laws : KubeLaws k) (env : Env) (now : ℕ) (t type_ : String) (s : ConditionStatus)
    (reason : String) (m : Message) (r : Roost)
    → status_of t (update_condition k env now type_ s reason m r).status.conditions
      ≡ (if str_eq type_ t then some s else status_of t r.status.conditions)
unfolding update_condition
status_of-update_condition k laws env now t type_ s reason m r = laws.status_of-set _ _ t

pub phase-update_condition :
    (k : Kube) (env : Env) (now : ℕ) (type_ : String) (s : ConditionStatus) (reason : String)
    (m : Message) (r : Roost)
    → (update_condition k env now type_ s reason m r).status.phase ≡ r.status.phase
unfolding update_condition
phase-update_condition k env now type_ s reason m r = refl

module _ (k : Kube) (laws : KubeLaws k) (env : Env) (now : ℕ) where
  after_pass : Roost → Roost
  after_pass r = (reconcile k env now r).0.stored

  -- the first pass stores the finalizer and asks for another
  pub reconcile-first :
      (r : Roost)
      → IsFine env
      → r.deletion_timestamp ≡ none
      → is_kept k r ≡ false
      → ((reconcile k env now r).0.stored ≡ with_finalizer k r)
        × ((reconcile k env now r).1 ≡ requeue_now)
  unfolding reconcile reconcile_normal update_roost
  reconcile-first r fine alive absent = ground arith

  first-IsLive :
      (r : Roost)
      → IsFine env
      → r.deletion_timestamp ≡ none
      → validate_spec r.spec ≡ none
      → is_kept k r ≡ false
      → IsLive k (reconcile k env now r).0.stored
        × ((reconcile k env now r).0.stored.status.phase ≡ r.status.phase)
  first-IsLive r fine alive valid absent = rw ((reconcile-first r fine alive absent).0) (
    record {
      kept = laws.contains-add r.finalizers managed_roost_finalizer;
      alive = alive;
      valid = valid;
    },
    refl,
  )

  reconcile-next :
      (r : Roost)
      → IsFine env
      → IsLive k r
      → (r.status.phase ≡ unset) ⊎ (r.status.phase ≡ pending) ⊎ (r.status.phase ≡ deploying)
      → (stored_phase (reconcile k env now r) ≡ next r.status.phase)
        × IsLive k (reconcile k env now r).0.stored
  unfolding reconcile reconcile_normal handle_pending_phase handle_deploying_phase
      transition_to_phase update_status update_condition
  reconcile-next r fine live h = ground arith

  transition-ready :
      (m : Message) (w : World)
      → env.status_update ≡ none
      → status_of "Ready" (transition_to_phase k env now ready m w).0.stored.status.conditions
        ≡ some condition_true
  unfolding transition_to_phase update_status
  transition-ready m w u =
      let r = w.roost in
      let r' = record r {
        status = record (r.status) { phase = ready; last_update_time = some now };
      } in
      let r'' = update_condition k env now "Ready" condition_true "Ready" m r' in
      ground (
        arith,
        status_of-update_condition k laws env now "Ready" "Progressing" condition_false "Complete" m
            r'',
        status_of-update_condition k laws env now "Ready" "Ready" condition_true "Ready" m r',
      )

  -- where the passes stand after the finalizer is stored
  reconcile-ready :
      (r : Roost)
      → IsFine env
      → IsLive k r
      → r.status.phase ≡ deploying
      → status_of "Ready" (reconcile k env now r).0.stored.status.conditions ≡ some condition_true
  unfolding reconcile reconcile_normal handle_deploying_phase
  reconcile-ready r fine live h =
      let w : World = record {
        roost = r;
        stored = r;
        log = helm_install ∷ event "InstallationCompleted" ∷ [];
      } in
      ground (arith, transition-ready (text "Helm installation completed") w)

-- A new roost with a valid chart, which nobody has deleted and which does not have the finalizer,
-- is Ready after four passes, whenever they run, if all calls of the passes succeed, Helm has no
-- release of it yet, and its installation is complete at once: it has the finalizer then, and its
-- Ready condition is true. The functions on finalizers and conditions do as they are documented.
pub run-ready :
    (k : Kube) (laws : KubeLaws k) (env : Env) (t₁ t₂ t₃ t₄ : ℕ) (r : Roost)
    → IsFine env
    → r.deletion_timestamp ≡ none
    → validate_spec r.spec ≡ none
    → is_kept k r ≡ false
    → r.status.phase ≡ unset
    → let r' = run k ((env, t₁) ∷ (env, t₂) ∷ (env, t₃) ∷ (env, t₄) ∷ []) r in
      (r'.status.phase ≡ ready)
      × (is_kept k r' ≡ true)
      × (status_of "Ready" r'.status.conditions ≡ some condition_true)
unfolding run
run-ready k laws env t₁ t₂ t₃ t₄ r fine alive valid absent new =
    let r₁ = (reconcile k env t₁ r).0.stored in
    let e₁ = (reconcile-first k laws env t₁ r fine alive absent).0 in
    let l₁ = first-IsLive k laws env t₁ r fine alive valid absent in
    let r₂ = (reconcile k env t₂ r₁).0.stored in
    let (e₂, l₂) = reconcile-next k laws env t₂ r₁ fine l₁.0 (inl (l₁.1 ∙ new)) in
    let r₃ = (reconcile k env t₃ r₂).0.stored in
    let (e₃, l₃) =
      reconcile-next k laws env t₃ r₂ fine l₂ (inr (inl (e₂ ∙ ap next (l₁.1 ∙ new)))) in
    let p₃ = e₃ ∙ ap next (e₂ ∙ ap next (l₁.1 ∙ new)) in
    let (e₄, l₄) = reconcile-next k laws env t₄ r₃ fine l₃ (inr (inr p₃)) in
    (e₄ ∙ ap next p₃, l₄.kept, reconcile-ready k laws env t₄ r₃ fine l₃ p₃)
