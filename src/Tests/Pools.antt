-- ===== src/Tests/Pools.antt =====
-- The pool of workers of internal/performance/worker_pool.go on concrete turns.
use roost_keeper.Prelude.{◌≡◌, ◌∷◌, List, pos, true, none, some, [], refl, arith, inc}
use roost_keeper.WorkerPool.{
  start, stop, submit, count, reconcile_payload, other_payload, Job, Pool, new,
}
use roost_keeper.WorkerPool.Loops.{
  turn, receive, send, take_job, finish, Turn, starts, stops, counts, receives, sends, takes,
  submits, finishes, run,
}
use roost_keeper.WorkerPool.Conservation.{IsAccounted, history}
use roost_keeper.WorkerPool.Runs.{no_history, run-IsAccounted, run-restarted}

abbrev job : Job
job = record { id = "1"; type_ = "reconcile"; payload = reconcile_payload; priority = pos 1 }

abbrev urgent : Job
urgent = record { id = "2"; type_ = "cleanup"; payload = other_payload; priority = pos 9 }

-- one job is completed, one fails, and one waits
abbrev turns : List Turn
turns =
    starts
    ∷ submits job
    ∷ counts
    ∷ takes
    ∷ submits urgent
    ∷ counts
    ∷ receives
    ∷ sends
    ∷ takes
    ∷ finishes 1
    ∷ finishes 0
    ∷ submits job
    ∷ counts
    ∷ []

abbrev worked : Pool
worked = record (new 2) {
  started = true;
  job_queue = job ∷ [];
  idle = 2;
  dispatchers = 1;
  active_workers = 2;
  total_jobs = pos 3;
  completed_jobs = pos 1;
  failed_jobs = pos 1;
}

works : run turns (new 2) ≡ some worked
unfolding run new inc
works = refl

run-IsAccounted_example : IsAccounted worked (history turns (new 2) no_history)
run-IsAccounted_example = run-IsAccounted 2 turns worked (omega arith) works

-- the jobs that are done with
accounts : (history turns (new 2) no_history).finished ≡ urgent ∷ job ∷ []
unfolding turn start submit count receive send take_job finish new
accounts = refl

-- a second stop of a pool that has been restarted panics
stopped_twice : run (stops ∷ starts ∷ stops ∷ []) worked ≡ none
unfolding run turn start stop new
stopped_twice = refl

run-restarted_example : run (stops ∷ starts ∷ submits job ∷ []) worked ≡ none
unfolding new
run-restarted_example = run-restarted worked job refl refl
