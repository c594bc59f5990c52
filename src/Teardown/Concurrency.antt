-- ===== src/Teardown/Concurrency.antt =====
-- The limit of concurrent executions of `ExecuteTeardown` in internal/teardown/manager.go.
use roost_keeper.Prelude.{
  ◌+◌, ◌≤◌, ◌∷◌, if◌then◌else◌, ℤ, String, List, pos, [], arith, length, pos_part, leb_ℤ, insert,
  delete,
}
use roost_keeper.Roost.{with_count, Reply, ok, err}
use roost_keeper.Teardown.Execution.{Execution}

-- the section under the lock at the start: `activeExecutions` gets the execution, if there is room
unfoldable pub begin_execution :
    ℤ → Execution → List (String × Execution) → Reply (List (String × Execution))
begin_execution limit x active =
    if leb_ℤ limit (pos (length active))
    then err (with_count "maximum concurrent executions reached (%d)" limit)
    else ok (insert x.execution_id x active)

-- the deferred section at the end
unfoldable pub end_execution : String → List (String × Execution) → List (String × Execution)
end_execution id active = delete id active

-- a section of one of the calls that run at the same time
pub data Section : Type 0 where
  begins : Execution → Section
  ends : String → Section

abbrev begun :
    Reply (List (String × Execution)) → List (String × Execution) → List (String × Execution)
begun (ok active') active = active'
begun (err e) active = active

unfoldable pub sections : ℤ → List Section → List (String × Execution) → List (String × Execution)
sections limit [] active = active
sections limit (begins x ∷ rest) active =
    sections limit rest (begun (begin_execution limit x active) active)
sections limit (ends id ∷ rest) active = sections limit rest (end_execution id active)

length-insert :
    (k : String) (x : Execution) (m : List (String × Execution))
    → length (insert k x m) ≤ length m + 1
unfolding insert
length-insert k x [] = omega arith
length-insert k x ((j, w) ∷ m) = ground (arith, length-insert k x m)

length-delete : (k : String) (m : List (String × Execution)) → length (delete k m) ≤ length m
unfolding delete
length-delete k [] = omega arith
length-delete k ((j, w) ∷ m) = ground (arith, length-delete k m)

sections_fit :
    (limit : ℤ) (ss : List Section) (active : List (String × Execution))
    → length active ≤ pos_part limit
    → length (sections limit ss active) ≤ pos_part limit
unfolding sections begin_execution end_execution
sections_fit limit [] active h = h
sections_fit limit (begins x ∷ rest) active h =
    sections_fit limit rest _ (ground (arith, length-insert x.execution_id x active))
sections_fit limit (ends id ∷ rest) active h =
    sections_fit limit rest _ (omega (arith, length-delete id active))

-- However the calls of `ExecuteTeardown` interleave, and whatever their executions are called,
-- there are never more active executions than the limit, and none under a negative limit.
pub length-sections :
    (limit : ℤ) (ss : List Section) → length (sections limit ss []) ≤ pos_part limit
length-sections limit ss = sections_fit limit ss [] (omega arith)
