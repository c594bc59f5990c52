-- ===== src/Tests/Teardowns.antt =====
-- The teardown manager of internal/teardown on concrete roosts.
use roost_keeper.Prelude.{
  ◌≤◌, ◌≡◌, ◌↔◌, ◌∷◌, String, List, pos, true, false, none, some, [], refl, length, lookup,
}
use mathlib.Core.List.Permᴰ
use roost_keeper.Roost.{text, ok, Roost, TeardownPolicy, ready}
use roost_keeper.Teardown.{Decision, Evaluator, get_by_trigger, collect, aggregate_decisions, high}
use roost_keeper.Teardown.Safety.{
  check_manual_approval_requirements, check_backup_requirements, check_data_persistence,
  check_services_with_external_endpoints, check_running_pods, check_dependent_resources,
  check_persistent_volumes, check_active_connections, perform_safety_checks, Listings,
}
use roost_keeper.Teardown.Firing.{any_fires, is_preserved}
use roost_keeper.Teardown.Policy.{
  first_blocking, check_safety, Config, evaluate_teardown_policy, data_safe,
  evaluate_teardown_policy-should_teardown,
}
use roost_keeper.Teardown.Execution.{
  Answers, Ends, Execution, pending, execute_teardown, execute_teardown_lem,
}
use roost_keeper.Teardown.Concurrency.{Section, begins, ends, sections, length-sections}
use roost_keeper.Tests.Cluster.{nginx, roost_in}

abbrev policy : TeardownPolicy
policy = record {
  triggers =
      record {
        type_ = "timeout";
        timeout = some (pos 60);
        failure_count = none;
        resource_threshold = false;
        schedule = "";
        webhook = false;
      }
      ∷ [];
  require_manual_approval = false;
  data_preservation = none;
}

abbrev timed_roost : Roost
timed_roost = roost_in ready [] (record nginx { teardown_policy = some policy })

abbrev late : Decision
late = record {
  should_teardown = true;
  reason = text "Timeout";
  urgency = high;
  safety_checks = [];
  trigger_type = "timeout";
  evaluated_at = 100;
  score = pos 80;
}

abbrev always : Evaluator
always = record {
  type_ = "timeout";
  priority = pos 100;
  should_teardown_of = λ now r. ok (some late);
}

abbrev registry : List (String × Evaluator)
registry = ("timeout", always) ∷ []

abbrev listings : Listings
listings = record {
  active_pods = ok (true ∷ []);
  claims = ok ("data-0" ∷ []);
  dependent_services = ok [];
  running_pods = ok (true ∷ []);
  external_services = ok [];
}

abbrev checked : Config
checked = record { enable_safety_checks = true }

-- a claim whose data is not preserved keeps the roost
claim_test :
    (evaluate_teardown_policy
      (λ less es. es)
      checked
      registry
      100
      listings
      timed_roost).should_teardown
    ≡ false
unfolding evaluate_teardown_policy get_by_trigger lookup check_safety aggregate_decisions collect
    first_blocking perform_safety_checks check_active_connections check_persistent_volumes
claim_test = refl

free_test :
    (evaluate_teardown_policy
      (λ less es. es)
      checked
      registry
      100
      (record listings { claims = ok [] })
      timed_roost).should_teardown
    ≡ true
unfolding evaluate_teardown_policy get_by_trigger lookup check_safety aggregate_decisions collect
    first_blocking perform_safety_checks check_active_connections check_persistent_volumes
    check_dependent_resources check_running_pods check_services_with_external_endpoints
    check_data_persistence check_backup_requirements check_manual_approval_requirements
free_test = refl

evaluate_teardown_policy-should_teardown_example :
    ((evaluate_teardown_policy
        (λ less es. es)
        checked
        registry
        100
        listings
        timed_roost).should_teardown
      ≡ true)
    ↔ ((any_fires 100 timed_roost registry policy.triggers ≡ true)
        × (policy.require_manual_approval ≡ false)
        × (data_safe listings.claims (is_preserved policy.data_preservation) ≡ true))
evaluate_teardown_policy-should_teardown_example =
    evaluate_teardown_policy-should_teardown (λ less es. es) checked registry 100 listings
      timed_roost policy (λ less es. Permᴰ.refl es) refl refl

abbrev answers : Answers
answers = record {
  pre_teardown_hooks = none;
  graceful_shutdown = some (text "timed out");
  data_preservation = none;
  status_update = some (text "conflict");
  cleanup = none;
  post_teardown_hooks = none;
}

execute_teardown_lem_example :
    Ends none none
      (some (text "conflict"))
      100
      answers
      timed_roost
      (execute_teardown 100 "exec-1" answers late timed_roost)
execute_teardown_lem_example = execute_teardown_lem 100 "exec-1" answers late timed_roost

abbrev execution : String → Execution
execution id = record {
  execution_id = id;
  decision = late;
  status = pending;
  progress = 0;
  steps = [];
  error = none;
}

abbrev three_calls : List Section
three_calls =
    begins (execution "a") ∷ begins (execution "b") ∷ ends "a" ∷ begins (execution "c") ∷ []

length-sections_example : length (sections (pos 2) three_calls []) ≤ 2
length-sections_example = length-sections (pos 2) three_calls
