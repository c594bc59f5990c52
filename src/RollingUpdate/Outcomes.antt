-- ===== src/RollingUpdate/Outcomes.antt =====
-- What a rolling update of internal/ha/rolling_update.go has written, and what it has seen, when
-- it ends.
use roost_keeper.Prelude.{
  ◌≡◌, ◌≢◌, ◌∷◌, ℕ, ℤ, String, List, Option, none, some, [], refl, inl, inr, arith, Option-cases,
}
use roost_keeper.Roost.{Message, text, Reply, ok, err}
use roost_keeper.RollingUpdate.{
  check_one, ConditionType, progressing, available, other, Condition, Deployment, UpdateStatus,
  completed, rolled_back, in_progress, Signal, tick, Outcome, done, gave_up, waiting, panicked,
  all_replicas, check_conditions, observe, go_on, monitor_rollout,
}
use roost_keeper.RollingUpdate.Perform.{
  Calls, rollback_update, rollback_read, Update, updated, monitored, rollback_end, written,
  initiated, started, update_timeout, perform_rolling_update,
}
use roost_keeper.RollingUpdate.Monitoring.{Seen, monitor-Seen, monitor-status}

-- the images of the deployments that have been written
abbrev pub images : List Deployment → List String
images [] = []
images (d ∷ ds) = d.image ∷ images ds

-- what an update that has come to an end has written, and seen, where the deployment had the
-- image `before`
abbrev pub IsFaithful : String → String → List Signal → Update → Type 0
IsFaithful before image signals u =
    (u.status.status ≡ completed → (images u.writes ≡ image ∷ []) × Seen signals × (u.ended ≡ done))
    × (u.status.status ≡ rolled_back → (images u.writes ≡ image ∷ before ∷ []) × (u.ended ≢ done))

rollback_end-IsFaithful :
    (before image : String) (signals : List Signal) (d : Deployment) (s : UpdateStatus)
    (e : Message) (r : List Deployment × Outcome)
    → d.image ≡ image
    → s.status ≡ in_progress
    → (r.1 ≡ done → images r.0 ≡ before ∷ [])
    → IsFaithful before image signals (rollback_end d s e r)
rollback_end-IsFaithful before image signals d s e (ws, done) i g h =
    ((λ x. absurd (cc)), λ x. (ground (arith, i, h), λ y. cc))
rollback_end-IsFaithful before image signals d s e (ws, gave_up x) i g h =
    ((λ y. absurd (cc)), λ y. absurd (cc))
rollback_end-IsFaithful before image signals d s e (ws, waiting) i g h =
    ((λ y. absurd (cc)), λ y. absurd (cc))
rollback_end-IsFaithful before image signals d s e (ws, panicked) i g h =
    ((λ y. absurd (cc)), λ y. absurd (cc))

rollback-images :
    (calls : Calls) (before : String) (a : Reply Deployment)
    → (rollback_read calls before a).1 ≡ done
    → images (rollback_read calls before a).0 ≡ before ∷ []
rollback-images calls before (ok d) h = elim (Option-cases calls.rollback_update) [
  | inl e ↦ rw e refl
  | inr (x, e) ↦ rw e refl
]
rollback-images calls before (err e) h = absurd (cc)

monitored-IsFaithful :
    (calls : Calls) (before image : String) (d : Deployment) (r : Outcome × UpdateStatus)
    → d.image ≡ image
    → r.1.status ≡ in_progress
    → (r.0 ≡ done → Seen calls.signals)
    → IsFaithful before image calls.signals (monitored calls before d r)
unfolding rollback_update
monitored-IsFaithful calls before image d (done, s) i g seen =
    ((λ x. (ground (arith, i), seen refl, refl)), λ x. absurd (cc))
monitored-IsFaithful calls before image d (gave_up e, s) i g seen =
    rollback_end-IsFaithful before image calls.signals d s e (rollback_update calls before) i g
      (rollback-images calls before calls.rollback_get)
monitored-IsFaithful calls before image d (waiting, s) i g seen =
    ((λ y. absurd (cc)), λ y. absurd (cc))
monitored-IsFaithful calls before image d (panicked, s) i g seen =
    ((λ y. absurd (cc)), λ y. absurd (cc))

written-IsFaithful :
    (calls : Calls) (before image : String) (d : Deployment) (s : UpdateStatus) (u : Option Message)
    → d.image ≡ image
    → IsFaithful before image calls.signals (written calls before d s u)
written-IsFaithful calls before image d s (some e) i = ((λ y. absurd (cc)), λ y. absurd (cc))
written-IsFaithful calls before image d s none i =
    monitored-IsFaithful calls before image d
      (monitor_rollout update_timeout calls.signals (initiated s)) i
      (monitor-status update_timeout calls.signals in_progress (initiated s) refl)
      (monitor-Seen update_timeout calls.signals (initiated s))

-- A rolling update that reports "completed" returns no error, has written the new image and nothing
-- else, and has read, at a tick, a deployment that was available with all its replicas updated and
-- ready. One that reports "rolled_back" returns an error, and has written the new image and then the
-- one that the deployment had before.
pub perform_rolling_update-IsFaithful :
    (now : ℕ) (image : String) (calls : Calls) (d : Deployment)
    → calls.get ≡ ok d
    → IsFaithful d.image image calls.signals (perform_rolling_update now image calls)
unfolding perform_rolling_update
perform_rolling_update-IsFaithful now image calls d e =
    simp e
      (written-IsFaithful calls d.image image (updated image d) (started now) calls.update refl)

all_replicas-updated :
    (image : String) (d : Deployment) (o : Option ℤ)
    → all_replicas (updated image d) o ≡ all_replicas d o
unfolding all_replicas
all_replicas-updated image d none = refl
all_replicas-updated image d (some n) = refl

check_one-updated :
    (image : String) (d : Deployment) (c : Condition) (t : ConditionType)
    (next next' : Message → Outcome × Message) (m : Message)
    → ((m' : Message) → next m' ≡ next' m')
    → check_one (updated image d) c t next m ≡ check_one d c t next' m
unfolding check_one
check_one-updated image d c progressing next next' m h = rw (h (text c.message)) refl
check_one-updated image d c available next next' m h =
    rw (h m, all_replicas-updated image d d.spec_replicas) refl
check_one-updated image d c (other t) next next' m h = h m

check-updated :
    (image : String) (d : Deployment) (cs : List Condition) (m : Message)
    → check_conditions (updated image d) cs m ≡ check_conditions d cs m
unfolding check_conditions
check-updated image d [] m = refl
check-updated image d (c ∷ cs) m =
    check_one-updated image d c c.type_ (check_conditions (updated image d) cs)
      (check_conditions d cs) m (λ m'. check-updated image d cs m')

done_at_once :
    (calls : Calls) (before : String) (d : Deployment)
    (next : UpdateStatus → Outcome × UpdateStatus) (r : Outcome × UpdateStatus)
    → r.0 ≡ done
    → ((monitored calls before d (go_on next r)).status.status ≡ completed)
      × ((monitored calls before d (go_on next r)).ended ≡ done)
done_at_once calls before d next (done, s) h = (refl, refl)
done_at_once calls before d next (waiting, s) h = absurd (cc)
done_at_once calls before d next (gave_up e, s) h = absurd (cc)
done_at_once calls before d next (panicked, s) h = absurd (cc)

-- An update of a deployment that had been rolled out before reports "completed" if its first tick
-- reads the status from before the update: the generation that the status is about is not asked.
pub perform_rolling_update-stale :
    (now : ℕ) (image : String) (calls : Calls) (d : Deployment) (signals : List Signal)
    → calls.get ≡ ok d
    → calls.update ≡ none
    → calls.signals ≡ tick (ok (updated image d)) ∷ signals
    → (check_conditions d d.conditions (text "Rolling update initiated")).0 ≡ done
    → ((perform_rolling_update now image calls).status.status ≡ completed)
      × ((perform_rolling_update now image calls).ended ≡ done)
unfolding perform_rolling_update monitor_rollout observe
perform_rolling_update-stale now image calls d signals e u t h =
    simp (e, u, t)
      (done_at_once calls d.image (updated image d) (monitor_rollout update_timeout signals)
        (observe (updated image d) (initiated (started now)))
        (rw (check-updated image d d.conditions (text "Rolling update initiated")) h))
