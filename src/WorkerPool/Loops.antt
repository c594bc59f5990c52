-- ===== src/WorkerPool/Loops.antt =====
-- The goroutines of internal/performance/worker_pool.go, and runs of them and of the calls.
use roost_keeper.Prelude.{
  ◌||◌, ◌∷◌, ◌++◌, if◌then◌else◌, ℕ, List, Option, Bool, zero, suc, none, some, [], str_eq, inc,
  max_int64,
}
use roost_keeper.Roost.{Message, text, with_text}
use roost_keeper.WorkerPool.{
  Job, Pool, Sent, start, stop, cancel, has_room, submit, submit_with_timeout, count, done, refused,
  waits, panics, reconcile_payload, health_check_payload, cleanup_payload, cache_payload,
  other_payload,
}

-- the outer select of `priorityDispatcher`: a job, or the end of the closed channel
unfoldable pub receive : ℕ → List Job → Pool → Sent
receive zero jobs p = waits
receive (suc n) [] p = if p.closed then done (record p { dispatchers = n }) else waits
receive (suc n) (job ∷ jobs) p =
    done (record p { dispatchers = n; priority_queue = jobs; held = job ∷ p.held })

-- whether the context of a goroutine may be cancelled: `Stop` has cancelled that of the goroutines
-- that an earlier `Start` left
abbrev pub is_over : Pool → Bool
is_over p = p.cancelled || p.closed

unfoldable pub dispatcher_leaves : ℕ → Pool → Sent
dispatcher_leaves zero p = waits
dispatcher_leaves (suc n) p = if is_over p then done (record p { dispatchers = n }) else waits

-- the inner select of `priorityDispatcher`: it sends the job, or drops it
unfoldable pub send : List Job → Pool → Sent
send [] p = waits
send (job ∷ jobs) p =
    if p.closed
    then panics
    else if has_room p
    then done (record p {
      held = jobs;
      job_queue = p.job_queue ++ (job ∷ []);
      dispatchers = suc p.dispatchers;
    })
    else waits

unfoldable pub drop : List Job → Pool → Sent
drop [] p = waits
drop (job ∷ jobs) p = if is_over p then done (record p { held = jobs }) else waits

-- the select of a worker's `start`: a job of either queue, or its end
unfoldable pub take_job : ℕ → List Job → Pool → Sent
take_job zero jobs p = waits
take_job (suc n) [] p = if p.closed then done (record p { idle = n }) else waits
take_job (suc n) (job ∷ jobs) p =
    done (record p { idle = n; job_queue = jobs; running = job ∷ p.running })

unfoldable pub take_priority_job : ℕ → List Job → Pool → Sent
take_priority_job zero jobs p = waits
take_priority_job (suc n) [] p = if p.closed then done (record p { idle = n }) else waits
take_priority_job (suc n) (job ∷ jobs) p =
    done (record p { idle = n; priority_queue = jobs; running = job ∷ p.running })

unfoldable pub worker_leaves : ℕ → Pool → Sent
worker_leaves zero p = waits
worker_leaves (suc n) p = if p.cancelled || p.closed then done (record p { idle = n }) else waits

-- the switch of `processJob`, with the four functions that it calls: the error
unfoldable pub process : Job → Option Message
process job =
    if str_eq job.type_ "reconcile"
    then (elim job.payload [
      | reconcile_payload ↦ none
      | health_check_payload ↦ some (text "invalid reconcile job payload")
      | cleanup_payload ↦ some (text "invalid reconcile job payload")
      | cache_payload ↦ some (text "invalid reconcile job payload")
      | other_payload ↦ some (text "invalid reconcile job payload")
    ])
    else if str_eq job.type_ "health_check"
    then (elim job.payload [
      | health_check_payload ↦ none
      | reconcile_payload ↦ some (text "invalid health check job payload")
      | cleanup_payload ↦ some (text "invalid health check job payload")
      | cache_payload ↦ some (text "invalid health check job payload")
      | other_payload ↦ some (text "invalid health check job payload")
    ])
    else if str_eq job.type_ "cleanup"
    then (elim job.payload [
      | cleanup_payload ↦ none
      | reconcile_payload ↦ some (text "invalid cleanup job payload")
      | health_check_payload ↦ some (text "invalid cleanup job payload")
      | cache_payload ↦ some (text "invalid cleanup job payload")
      | other_payload ↦ some (text "invalid cleanup job payload")
    ])
    else if str_eq job.type_ "cache_operation"
    then (elim job.payload [
      | cache_payload ↦ none
      | reconcile_payload ↦ some (text "invalid cache job payload")
      | health_check_payload ↦ some (text "invalid cache job payload")
      | cleanup_payload ↦ some (text "invalid cache job payload")
      | other_payload ↦ some (text "invalid cache job payload")
    ])
    else some (with_text "unknown job type: %s" job.type_)

-- `processJob` counts the job that it has processed
abbrev pub counted : Option Message → Pool → Pool
counted none p = record p { completed_jobs = inc max_int64 p.completed_jobs }
counted (some e) p = record p { failed_jobs = inc max_int64 p.failed_jobs }

abbrev pub keeping : Job → Option (Job × List Job) → Option (Job × List Job)
keeping job none = none
keeping job (some (found, jobs)) = some (found, job ∷ jobs)

-- one of the jobs, and the others
abbrev pub pick : ℕ → List Job → Option (Job × List Job)
pick i [] = none
pick zero (job ∷ jobs) = some (job, jobs)
pick (suc i) (job ∷ jobs) = keeping job (pick i jobs)

unfoldable pub finish : Option (Job × List Job) → Pool → Sent
unfolding process
finish none p = waits
finish (some (job, jobs)) p =
    done (counted (process job) (record p { idle = suc p.idle; running = jobs }))

pub data Turn : Type 0 where
  starts stops cancels counts receives leaves sends drops takes takes_priority goes : Turn
  submits : Job → Turn
  submits_with_timeout : Job → Bool → Turn
  finishes : ℕ → Turn

unfoldable pub turn : Turn → Pool → Sent
unfolding start stop submit submit_with_timeout count receive dispatcher_leaves send drop take_job
    take_priority_job worker_leaves finish cancel
turn starts p = start p
turn stops p = stop p
turn cancels p = cancel p
turn counts p = count p.uncounted p
turn receives p = receive p.dispatchers p.priority_queue p
turn leaves p = dispatcher_leaves p.dispatchers p
turn sends p = send p.held p
turn drops p = drop p.held p
turn takes p = take_job p.idle p.job_queue p
turn takes_priority p = take_priority_job p.idle p.priority_queue p
turn goes p = worker_leaves p.idle p
turn (submits job) p = submit job p
turn (submits_with_timeout job expired) p = submit_with_timeout job expired p
turn (finishes i) p = finish (pick i p.running) p

-- a goroutine that waits, or a call that is refused, leaves the pool as it is; a panic ends the
-- program
abbrev pub after : Pool → Sent → Option Pool
after p (done p') = some p'
after p (refused e) = some p
after p waits = some p
after p panics = none

abbrev pub and_then : Option Pool → (Pool → Option Pool) → Option Pool
and_then none next = none
and_then (some p) next = next p

unfoldable pub run : List Turn → Pool → Option Pool
unfolding turn
run [] p = some p
run (t ∷ ts) p = and_then (after p (turn t p)) (run ts)
