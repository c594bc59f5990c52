-- ===== src/Tests/Events.antt =====
-- The breaker of internal/events/circuit_breaker.go and the timeout evaluator on concrete values.
use roost_keeper.Prelude.{◌≡◌, ◌∷◌, ℕ, List, Option, pos, none, some, [], refl, arith, replicate}
use roost_keeper.Roost.{text, Message, Roost, ready}
use roost_keeper.EventBreaker.{Config, Breaker, opened, half_open, new}
use roost_keeper.EventBreaker.Trials.{errors_all, execute_all, execute_all-half_open}
use roost_keeper.Tests.Cluster.{limited, roost_in}

abbrev config : Config
config = record {
  failure_threshold = pos 2;
  success_threshold = pos 3;
  recovery_timeout = pos 30;
  max_half_open_calls = pos 2;
}

abbrev tripped : Breaker
tripped = record (new config) {
  state = opened;
  failure_count = pos 2;
  success_count = pos 7;
  last_failure_time = 10;
}

abbrev used_up : Breaker
used_up = record tripped { state = half_open; success_count = pos 2; half_open_calls = pos 2 }

abbrev calls : List (ℕ × ℕ × Option Message)
calls = (50, 51, none) ∷ (1000, 1001, none) ∷ []

execute_all-half_open_example :
    (execute_all calls used_up ≡ used_up)
    × (errors_all calls used_up ≡ replicate 2 (some (text "circuit breaker is open")))
unfolding new
execute_all-half_open_example = execute_all-half_open calls used_up refl (omega arith)

abbrev old_roost : Roost
old_roost = roost_in ready [] limited
