-- ===== src/Tests/Updates.antt =====
-- The rolling update of internal/ha/rolling_update.go on concrete answers of the cluster.
use roost_keeper.Prelude.{◌≡◌, ◌∷◌, List, pos, none, some, [], refl}
use roost_keeper.Roost.{ok}
use roost_keeper.RollingUpdate.{
  available, Condition, Deployment, Signal, tick, done, completed, rolled_back, monitor_rollout,
  observe, check_conditions, check_one, all_replicas, deadline,
}
use roost_keeper.RollingUpdate.Perform.{
  Calls, updated, perform_rolling_update, rollback_update, monitor_rollback, check_rollback,
}
use roost_keeper.RollingUpdate.Outcomes.{
  IsFaithful, images, perform_rolling_update-IsFaithful, perform_rolling_update-stale,
}

abbrev is_available : Condition
is_available = record { type_ = available; status = "True"; message = "" }

abbrev deployment : Deployment
deployment = record {
  image = "roost-keeper:1";
  strategy = "";
  limits = none;
  spec_replicas = some (pos 3);
  replicas = pos 3;
  updated_replicas = pos 3;
  ready_replicas = pos 3;
  conditions = is_available ∷ [];
}

abbrev signals : List Signal
signals = tick (ok (updated "roost-keeper:2" deployment)) ∷ []

abbrev calls : Calls
calls = record {
  get = ok deployment;
  update = none;
  signals = signals;
  rollback_get = ok (updated "roost-keeper:2" deployment);
  rollback_update = none;
  rollback_signals = tick (ok deployment) ∷ [];
}

-- the pods of the new image are never ready
abbrev broken : Calls
broken = record calls {
  signals = tick (ok (record deployment { ready_replicas = pos 2 })) ∷ deadline ∷ [];
}

perform_rolling_update-IsFaithful_example :
    IsFaithful "roost-keeper:1" "roost-keeper:2" broken.signals
      (perform_rolling_update 7 "roost-keeper:2" broken)
perform_rolling_update-IsFaithful_example =
    perform_rolling_update-IsFaithful 7 "roost-keeper:2" broken deployment refl

perform_rolling_update-stale_example :
    ((perform_rolling_update 7 "roost-keeper:2" calls).status.status ≡ completed)
    × ((perform_rolling_update 7 "roost-keeper:2" calls).ended ≡ done)
unfolding check_conditions check_one all_replicas
perform_rolling_update-stale_example =
    perform_rolling_update-stale 7 "roost-keeper:2" calls deployment [] refl refl refl refl

rolls_back :
    images (perform_rolling_update 7 "roost-keeper:2" broken).writes
    ≡ "roost-keeper:2" ∷ "roost-keeper:1" ∷ []
unfolding perform_rolling_update monitor_rollout observe check_conditions check_one all_replicas
    rollback_update monitor_rollback check_rollback
rolls_back = refl

reports_rollback : (perform_rolling_update 7 "roost-keeper:2" broken).status.status ≡ rolled_back
unfolding perform_rolling_update monitor_rollout observe check_conditions check_one all_replicas
    rollback_update monitor_rollback check_rollback
reports_rollback = refl
