-- ===== src/RollingUpdate/Perform.antt =====
-- `PerformRollingUpdate` and `rollbackUpdate` of internal/ha/rolling_update.go, over what the calls
-- of an update return.
use roost_keeper.Prelude.{
  ◌/◌, ◌∷◌, if◌then◌else◌, ℕ, ℤ, String, List, Option, pos, none, some, [], str_eq,
}
use roost_keeper.Roost.{Message, text, about, about_both, with_count, Reply, ok, err}
use roost_keeper.RollingUpdate.{
  progressing, available, other, Condition, Deployment, percent, starting, failed, in_progress,
  failed_with_rollback_error, rolled_back, completed, UpdateStatus, Signal, cancelled, deadline,
  tick, Outcome, done, gave_up, waiting, panicked, all_replicas, after_available, monitor_rollout,
}

-- the loop of `rollbackUpdate` over the conditions
unfoldable pub check_rollback : Deployment → List Condition → Outcome
unfolding all_replicas
check_rollback d [] = waiting
check_rollback d (c ∷ cs) =
    let next = check_rollback d cs in
    elim c.type_ [
      | available ↦
          if str_eq c.status "True"
          then after_available (all_replicas d d.spec_replicas) next
          else next
      | progressing ↦ next
      | other t ↦ next
    ]

unfoldable pub monitor_rollback : List Signal → Outcome
unfolding check_rollback
monitor_rollback [] = waiting
monitor_rollback (cancelled e ∷ signals) = gave_up (about "rollback monitoring cancelled: %w" e)
monitor_rollback (deadline ∷ signals) = gave_up (text "rollback timed out")
monitor_rollback (tick (err e) ∷ signals) =
    gave_up (about "failed to get deployment status during rollback: %w" e)
monitor_rollback (tick (ok d) ∷ signals) =
    let next = monitor_rollback signals in after_available (check_rollback d d.conditions) next

-- what the calls of an update return
pub record Calls : Type 0 where
  pub get : Reply Deployment
  pub update : Option Message
  pub signals : List Signal
  pub rollback_get : Reply Deployment
  pub rollback_update : Option Message
  pub rollback_signals : List Signal

abbrev pub rollback_written : Calls → Deployment → Option Message → List Deployment × Outcome
rollback_written calls d none = (d ∷ [], monitor_rollback calls.rollback_signals)
rollback_written calls d (some e) =
    (d ∷ [], gave_up (about "failed to update deployment for rollback: %w" e))

-- `rollbackUpdate`: the deployments that it writes, and what it comes to
abbrev pub rollback_read : Calls → String → Reply Deployment → List Deployment × Outcome
rollback_read calls image (ok d) =
    rollback_written calls (record d { image = image }) calls.rollback_update
rollback_read calls image (err e) =
    ([], gave_up (about "failed to get deployment for rollback: %w" e))

unfoldable pub rollback_update : Calls → String → List Deployment × Outcome
unfolding monitor_rollback
rollback_update calls image = rollback_read calls image calls.rollback_get

-- the deployment that `PerformRollingUpdate` writes
abbrev pub rolling_update_type : String
rolling_update_type = "RollingUpdate"

abbrev pub updated : String → Deployment → Deployment
updated image d = record d {
  image = image;
  strategy = rolling_update_type;
  limits = some (some (pos 1), some (pos 1));
}

-- what an update leaves: the deployments written, the status, and how it ends; `none` is a return
-- without an error
pub record Update : Type 0 where
  pub writes : List Deployment
  pub status : UpdateStatus
  pub ended : Outcome

abbrev pub rollback_end : Deployment → UpdateStatus → Message → List Deployment × Outcome → Update
rollback_end d s e (writes, done) = record {
  writes = d ∷ writes;
  status = record s {
    status = rolled_back;
    message = about "Update failed: %v, Successfully rolled back" e;
  };
  ended = gave_up e;
}
rollback_end d s e (writes, gave_up x) = record {
  writes = d ∷ writes;
  status = record s {
    status = failed_with_rollback_error;
    message = about_both "Update failed: %v, Rollback failed: %v" e x;
  };
  ended = gave_up e;
}
rollback_end d s e (writes, waiting) = record { writes = d ∷ writes; status = s; ended = waiting }
rollback_end d s e (writes, panicked) = record { writes = d ∷ writes; status = s; ended = panicked }

abbrev pub monitored : Calls → String → Deployment → Outcome × UpdateStatus → Update
monitored calls original d (done, s) = record {
  writes = d ∷ [];
  status = record s {
    status = completed;
    progress = percent 100;
    message = text "Rolling update completed successfully";
  };
  ended = done;
}
monitored calls original d (gave_up e, s) = rollback_end d s e (rollback_update calls original)
monitored calls original d (waiting, s) = record { writes = d ∷ []; status = s; ended = waiting }
monitored calls original d (panicked, s) = record { writes = d ∷ []; status = s; ended = panicked }

abbrev pub initiated : UpdateStatus → UpdateStatus
initiated s = record s {
  status = in_progress;
  message = text "Rolling update initiated";
  progress = percent 10;
}

-- ten minutes, the timeout of the update's configuration
abbrev pub update_timeout : ℤ
update_timeout = pos 600_000_000_000

abbrev pub written : Calls → String → Deployment → UpdateStatus → Option Message → Update
written calls original d s (some e) = record {
  writes = d ∷ [];
  status = record s { status = failed; message = about "Failed to update deployment: %v" e };
  ended = gave_up (about "failed to update deployment: %w" e);
}
written calls original d s none =
    monitored calls original d (monitor_rollout update_timeout calls.signals (initiated s))

abbrev pub read : Calls → String → UpdateStatus → Reply Deployment → Update
read calls image s (err e) = record {
  writes = [];
  status = record s { status = failed; message = about "Failed to get deployment: %v" e };
  ended = gave_up (about "failed to get controller deployment: %w" e);
}
read calls image s (ok d) = written calls d.image (updated image d) s calls.update

abbrev pub started : ℕ → UpdateStatus
started now = record {
  id = with_count "update-%d" (pos (now / 1_000_000_000));
  start_time = now;
  status = starting;
  current_replicas = pos 0;
  updated_replicas = pos 0;
  ready_replicas = pos 0;
  progress = percent 0;
  message = text "Initiating rolling update";
}

-- `PerformRollingUpdate`
unfoldable pub perform_rolling_update : ℕ → String → Calls → Update
unfolding monitor_rollout rollback_update
perform_rolling_update now image calls = read calls image (started now) calls.get
