-- ===== src/WorkerPool/Runs.antt =====
-- Runs of the pool of internal/performance/worker_pool.go.
use mathlib.Core.Option.{some-injective}
use roost_keeper.Prelude.{
  ◌+◌, ◌≤◌, ◌<◌, ◌≡◌, ◌∷◌, ℕ, List, suc, true, none, some, [], refl, sym, inl, inr, arith,
  Bool-cases, length, max_int64,
}
use roost_keeper.WorkerPool.{
  Job, Pool, new, Sent, done, refused, waits, panics, start, stop, submit,
}
use roost_keeper.WorkerPool.Loops.{
  pick, Turn, turn, starts, stops, cancels, counts, receives, leaves, sends, drops, takes,
  takes_priority, goes, submits, submits_with_timeout, finishes, after, and_then, run,
}
use roost_keeper.WorkerPool.Conservation.{History, note, history, IsAccounted, IsConserved, Leads}
use roost_keeper.WorkerPool.Calls.{
  start-Leads, stop-Leads, cancel-Leads, submit-Leads, submit_with_timeout-Leads, count-Leads,
}
use roost_keeper.WorkerPool.Goroutines.{
  receive-Leads, dispatcher_leaves-Leads, send-Leads, drop-Leads, take_job-Leads,
  take_priority_job-Leads, worker_leaves-Leads, pick-IsSplit, finish-Leads,
}

turn-Leads :
    (n : ℕ) (t : Turn) (p : Pool) (h : History)
    → n < max_int64
    → IsConserved n p h
    → Leads n p h (note t p h) (turn t p)
unfolding turn
turn-Leads n starts p h room k = start-Leads n p h k
turn-Leads n stops p h room k = stop-Leads n p h k
turn-Leads n cancels p h room k = cancel-Leads n p h k
turn-Leads n counts p h room k = count-Leads n p.uncounted p h refl room k
turn-Leads n receives p h room k = receive-Leads n p.dispatchers p.priority_queue p h refl k
turn-Leads n leaves p h room k = dispatcher_leaves-Leads n p.dispatchers p h k
turn-Leads n sends p h room k = send-Leads n p.held p h refl k
turn-Leads n drops p h room k = drop-Leads n p.held p h refl k
turn-Leads n takes p h room k = take_job-Leads n p.idle p.job_queue p h refl k
turn-Leads n takes_priority p h room k =
    take_priority_job-Leads n p.idle p.priority_queue p h refl k
turn-Leads n goes p h room k = worker_leaves-Leads n p.idle p h k
turn-Leads n (submits job) p h room k = submit-Leads n job p h k
turn-Leads n (submits_with_timeout job expired) p h room k =
    submit_with_timeout-Leads n job expired p h k
turn-Leads n (finishes i) p h room k =
    finish-Leads n p h (pick i p.running) (pick-IsSplit i p.running) room k

run-Leads :
    (n : ℕ) (ts : List Turn) (p p' : Pool) (h h' : History) (s : Sent)
    → Leads n p h h' s
    → ((q : Pool) (g : History)
        → IsConserved (suc n) q g
        → run ts q ≡ some p'
        → IsAccounted p' (history ts q g))
    → and_then (after p s) (run ts) ≡ some p'
    → IsAccounted p' (elim s [
      | done q ↦ history ts q h'
      | refused e ↦ history ts p h
      | waits ↦ history ts p h
      | panics ↦ h
    ])
run-Leads n ts p p' h h' (done q) leads k e = k q h' leads e
run-Leads n ts p p' h h' (refused m) leads k e = k p h leads e
run-Leads n ts p p' h h' waits leads k e = k p h leads e
run-Leads n ts p p' h h' panics leads k e = absurd (cc)

conserved_run :
    (n : ℕ) (ts : List Turn) (p p' : Pool) (h : History)
    → n + length ts ≤ max_int64
    → IsConserved n p h
    → run ts p ≡ some p'
    → IsAccounted p' (history ts p h)
unfolding run
conserved_run n [] p p' h room k e = rw (sym (some-injective p p' e)) (k.0)
conserved_run n (t ∷ ts) p p' h room k e =
    run-Leads n ts p p' h (note t p h) (turn t p) (turn-Leads n t p h (ground (arith, room)) k)
      (λ q g c. conserved_run (suc n) ts q p' g (ground (arith, room)) c) e

abbrev pub no_history : History
no_history = record { sent = []; finished = []; dropped = [] }

-- In a run of less than 2^63 turns from a new pool, of calls, workers and dispatchers in any order,
-- each job whose send has succeeded is in a queue, with a dispatcher or with a worker, or a worker
-- has processed it, or a dispatcher has dropped it, and each is in one of these places as often as
-- it was sent: the numbers agree for every test of the jobs. The count of all jobs is that of the
-- jobs that were sent, less those whose call has not counted its job yet; those of the completed
-- and of the failed jobs are the numbers of the processed jobs without and with an error. No job is
-- dropped while the context lasts and the channels are open.
pub run-IsAccounted :
    (workers : ℕ) (ts : List Turn) (p : Pool)
    → length ts ≤ max_int64
    → run ts (new workers) ≡ some p
    → IsAccounted p (history ts (new workers) no_history)
unfolding new
run-IsAccounted workers ts p room e =
    conserved_run 0 ts (new workers) p no_history (omega (arith, room))
      ((λ q. refl, (0, refl, refl), refl, refl, λ o. refl), omega arith, λ a o. refl) e

-- A pool that is stopped and started again panics at the first job that is submitted, if not before:
-- its channels stay closed.
pub run-restarted :
    (p : Pool) (job : Job)
    → p.started ≡ true
    → p.uncounted ≡ 0
    → run (stops ∷ starts ∷ submits job ∷ []) p ≡ none
unfolding run turn start stop submit
run-restarted p job a b = elim (Bool-cases p.closed) [
  | inl shut ↦ rw (a, b, shut) refl
  | inr open_ ↦ rw (a, b, open_) refl
]
