-- ===== src/Teardown/Execution.antt =====
-- The execution of a teardown: internal/teardown/execution.go, `Execute`, and what `ExecuteTeardown`
-- of manager.go makes of it. The waits are left out.
use roost_keeper.Prelude.{
  ◌+◌, ◌*◌, ◌/◌, ◌≤◌, ◌≡◌, ◌∷◌, ◌++◌, ℕ, String, List, Option, pos, true, none, some, [], refl, inl,
  inr, arith, Option-cases, length,
}
use roost_keeper.Roost.{
  about_text, Message, text, about, with_text, Roost, tearing_down, TeardownStatus,
}
use roost_keeper.Teardown.{Decision}

-- `TeardownExecutionStatus`
pub data ExecutionStatus : Type 0 where
  pending running completed failed aborted : ExecutionStatus

-- `TeardownExecutionStep`, without its times and metadata
pub record Step : Type 0 where
  pub name : String
  pub status : ExecutionStatus
  pub message : Message
  pub error : Option Message

-- `TeardownExecution`; the progress is an `int32`
pub record Execution : Type 0 where
  pub execution_id : String
  pub decision : Decision
  pub status : ExecutionStatus
  pub progress : ℕ
  pub steps : List Step
  pub error : Option Message

-- what the functions of the six steps return
pub record Answers : Type 0 where
  pub pre_teardown_hooks : Option Message
  pub graceful_shutdown : Option Message
  pub data_preservation : Option Message
  pub status_update : Option Message
  pub cleanup : Option Message
  pub post_teardown_hooks : Option Message

-- `executePreTeardownHooks` and the others, as they are: only the shutdown, which may run out of its
-- time, and the write of the status can fail
unfoldable pub source_answers : Option Message → Option Message → Answers
source_answers shutdown update = record {
  pre_teardown_hooks = none;
  graceful_shutdown = shutdown;
  data_preservation = none;
  status_update = update;
  cleanup = none;
  post_teardown_hooks = none;
}

-- `executeStep`, for a step function that returns `answer`
abbrev step_of : String → Option Message → Step
step_of name none = record {
  name = name;
  status = completed;
  message = with_text "Step %s completed successfully" name;
  error = none;
}
step_of name (some e) = record {
  name = name;
  status = failed;
  message = about_text "Step %s failed: %v" name e;
  error = some e;
}

abbrev progress_after : Option Message → ℕ → ℕ → ℕ
progress_after none index old = (index + 1) * 100 / 6
progress_after (some e) index old = old

unfoldable pub execute_step : String → Option Message → Execution → Execution
execute_step name answer x = record x {
  steps = x.steps ++ (step_of name answer ∷ []);
  progress = progress_after answer (length x.steps) x.progress;
}

-- the change that `performResourceTeardown` makes to the object in memory
unfoldable pub mark_torn_down : ℕ → Roost → Roost
mark_torn_down now r = record r {
  status = record (r.status) {
    phase = tearing_down;
    teardown = some (elim r.status.teardown [
      | none ↦ record {
        triggered = true;
        trigger_reason = text "";
        trigger_time = some now;
        completion_time = none;
        progress = pos 0;
      }
      | some t ↦ record t { triggered = true; trigger_time = some now }
    ]);
  };
}

-- the roost in memory, the execution, and the error
abbrev pub Ran : Type 0
Ran = Roost × Execution × Option Message

-- cleanup and the hooks after it, whose errors are only logged
abbrev finished : Answers → Roost → Execution → Ran
finished a r x = (
  r,
  execute_step "post_teardown_hooks" a.post_teardown_hooks (execute_step "cleanup" a.cleanup x),
  none,
)

abbrev after_teardown : Answers → Roost → Execution → Option Message → Ran
after_teardown a r x (some e) = (
  r,
  x,
  some (about "resource teardown failed: %w" (about "failed to update roost status: %w" e)),
)
after_teardown a r x none = finished a r x

abbrev after_preservation : ℕ → Answers → Roost → Execution → Option Message → Ran
after_preservation now a r x (some e) = (r, x, some (about "data preservation failed: %w" e))
after_preservation now a r x none =
    after_teardown a (mark_torn_down now r) (execute_step "resource_teardown" a.status_update x)
      a.status_update

abbrev after_hooks : ℕ → Answers → Roost → Execution → Option Message → Ran
after_hooks now a r x (some e) = (r, x, some (about "pre-teardown hooks failed: %w" e))
after_hooks now a r x none =
    after_preservation now a r
      (execute_step "data_preservation" a.data_preservation
        (execute_step "graceful_shutdown" a.graceful_shutdown x))
      a.data_preservation

-- `Execute`
unfoldable pub execute : ℕ → Answers → Roost → Execution → Ran
execute now a r x =
    after_hooks now a r
      (execute_step "pre_teardown_hooks" a.pre_teardown_hooks (record x { status = running }))
      a.pre_teardown_hooks

-- the end of `ExecuteTeardown`
abbrev ended : Ran → Ran
ended (r, x, some e) = (r, record x { status = failed; error = some e }, some e)
ended (r, x, none) = (r, record x { status = completed; progress = 100 }, none)

-- `ExecuteTeardown` from the new execution on, with the limit of concurrent executions left to
-- Concurrency
unfoldable pub execute_teardown : ℕ → String → Answers → Decision → Roost → Ran
execute_teardown now id a d r = ended (
    execute now a r (record {
      execution_id = id;
      decision = d;
      status = pending;
      progress = 0;
      steps = [];
      error = none;
    }))

-- the names of the steps, in order, with what each of them returned
abbrev pub report : List Step → List (String × Option Message)
report [] = []
report (s ∷ ss) = (s.name, s.error) ∷ report ss

-- the roost is on its way out since `now`, and its specification is the one it was
abbrev pub IsMarked : ℕ → Roost → Roost → Type 0
IsMarked now r r' =
    (r'.spec ≡ r.spec)
    × (r'.status.phase ≡ tearing_down)
    × (t : TeardownStatus) × (r'.status.teardown ≡ some t)
    × (t.triggered ≡ true)
    × (t.trigger_time ≡ some now)

mark_torn_down-IsMarked : (now : ℕ) (r : Roost) → IsMarked now r (mark_torn_down now r)
unfolding mark_torn_down
mark_torn_down-IsMarked now r = elim (Option-cases r.status.teardown) [
  | inl e ↦ rw e (refl, refl, _, refl, refl, refl)
  | inr (t, e) ↦ rw e (refl, refl, _, refl, refl, refl)
]

-- how a teardown ends, by what the hooks before it, the data preservation and the write of the
-- status return
abbrev pub Ends :
    Option Message → Option Message → Option Message → ℕ → Answers → Roost → Ran → Type 0
Ends (some e) preserved written now a r (r', x, err) =
    (err ≡ some (about "pre-teardown hooks failed: %w" e))
    × (x.status ≡ failed)
    × (x.progress ≡ 0)
    × (r' ≡ r)
    × (report x.steps ≡ ("pre_teardown_hooks", some e) ∷ [])
Ends none (some e) written now a r (r', x, err) =
    (err ≡ some (about "data preservation failed: %w" e))
    × (x.status ≡ failed)
    × (x.progress ≤ 33)
    × (r' ≡ r)
    × (report x.steps
        ≡ ("pre_teardown_hooks", none)
          ∷ ("graceful_shutdown", a.graceful_shutdown)
          ∷ ("data_preservation", some e)
          ∷ [])
Ends none none (some e) now a r (r', x, err) =
    (err
      ≡ some (about "resource teardown failed: %w" (about "failed to update roost status: %w" e)))
    × (x.status ≡ failed)
    × (x.progress ≤ 50)
    × IsMarked now r r'
    × (report x.steps
        ≡ ("pre_teardown_hooks", none)
          ∷ ("graceful_shutdown", a.graceful_shutdown)
          ∷ ("data_preservation", none)
          ∷ ("resource_teardown", some e)
          ∷ [])
Ends none none none now a r (r', x, err) =
    (err ≡ none)
    × (x.status ≡ completed)
    × (x.progress ≡ 100)
    × IsMarked now r r'
    × (report x.steps
        ≡ ("pre_teardown_hooks", none)
          ∷ ("graceful_shutdown", a.graceful_shutdown)
          ∷ ("data_preservation", none)
          ∷ ("resource_teardown", none)
          ∷ ("cleanup", a.cleanup)
          ∷ ("post_teardown_hooks", a.post_teardown_hooks)
          ∷ [])

runs-Ends :
    (now : ℕ) (id : String) (a : Answers) (d : Decision) (r : Roost)
    (hooks preserved written : Option Message)
    → a.pre_teardown_hooks ≡ hooks
    → a.data_preservation ≡ preserved
    → a.status_update ≡ written
    → Ends hooks preserved written now a r (execute_teardown now id a d r)
unfolding execute_teardown execute execute_step
runs-Ends now id a d r (some e) preserved written h p w = rw h (refl, refl, refl, refl, refl)
runs-Ends now id a d r none (some e) written h p w =
    rw (h, p) (refl, refl, ground arith, refl, ground arith)
runs-Ends now id a d r none none (some e) h p w =
    rw (h, p, w) (refl, refl, ground arith, mark_torn_down-IsMarked now r, ground arith)
runs-Ends now id a d r none none none h p w =
    rw (h, p, w) (refl, refl, refl, mark_torn_down-IsMarked now r, ground arith)

-- A teardown stops with the error of the hooks before it, if they fail, and then with that of the
-- data preservation, if it fails, in both cases without a change of the roost; otherwise the roost
-- is marked as on its way out, and it stops with the error of the write of the status, if that
-- fails, and else completes without an error, whatever the shutdown, the cleanup and the hooks after
-- it return. It records exactly the steps that it has run, in their order, each with what it
-- returned, and a teardown that stops is failed, with at most half of its progress.
pub execute_teardown_lem :
    (now : ℕ) (id : String) (a : Answers) (d : Decision) (r : Roost)
    → Ends a.pre_teardown_hooks a.data_preservation a.status_update now a r
        (execute_teardown now id a d r)
execute_teardown_lem now id a d r =
    runs-Ends now id a d r a.pre_teardown_hooks a.data_preservation a.status_update refl refl refl
