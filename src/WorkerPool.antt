-- ===== src/WorkerPool.antt =====
-- The pool of workers: internal/performance/worker_pool.go, of at least one worker. What the
-- goroutines do is a sequence of turns: each is a section that runs without another, a send or a
-- receive on a channel, or an atomic addition. The wait of `Stop` is left out: what a goroutine does
-- meanwhile it may do after it, and a call that needs the lock waits.
pub mod Loops
pub mod Conservation
pub mod Calls
pub mod Goroutines
pub mod Runs
use roost_keeper.Prelude.{
  ◌+◌, ◌*◌, ◌/◌, ◌||◌, ◌∷◌, ◌++◌, ◌==◌, if◌then◌else◌, ℕ, ℤ, String, List, Bool, zero, suc, pos,
  true, false, not, [], ltb, length, ltb_ℤ, inc, max_int64,
}
use roost_keeper.Roost.{Message, text}

-- `Job.Payload`, by its type
pub data Payload : Type 0 where
  reconcile_payload health_check_payload cleanup_payload cache_payload other_payload : Payload

-- `Job`, without its callback
pub record Job : Type 0 where
  pub id : String
  pub type_ : String
  pub payload : Payload
  pub priority : ℤ

-- `WorkerPool`, with its goroutines: `idle` workers wait for a job, the others process those that
-- are `running`; `dispatchers` wait for a job of a high priority, or have one that is `held`.
-- `uncounted` is the number of the calls that have sent a job and not counted it yet. `closed` is
-- said of the two channels, `cancelled` of the context. Latencies, the throughput and the length of
-- the queues of `WorkerPoolStats` are left out.
pub record Pool : Type 0 where
  pub worker_count : ℕ
  pub max_queue_size : ℕ
  pub job_queue : List Job
  pub priority_queue : List Job
  pub started : Bool
  pub closed : Bool
  pub cancelled : Bool
  pub idle : ℕ
  pub running : List Job
  pub dispatchers : ℕ
  pub held : List Job
  pub uncounted : ℕ
  pub active_workers : ℕ
  pub total_jobs : ℤ
  pub completed_jobs : ℤ
  pub failed_jobs : ℤ

-- `NewWorkerPool`
unfoldable pub new : ℕ → Pool
new worker_count = record {
  worker_count = worker_count;
  max_queue_size = worker_count * 10;
  job_queue = [];
  priority_queue = [];
  started = false;
  closed = false;
  cancelled = false;
  idle = 0;
  running = [];
  dispatchers = 0;
  held = [];
  uncounted = 0;
  active_workers = 0;
  total_jobs = pos 0;
  completed_jobs = pos 0;
  failed_jobs = pos 0;
}

-- what a call comes to; a send on a closed channel panics, and its close too
pub data Sent : Type 0 where
  done : Pool → Sent
  refused : Message → Sent
  waits : Sent
  panics : Sent

-- `Start`
unfoldable pub start : Pool → Sent
start p =
    if p.started
    then refused (text "worker pool already started")
    else done (record p {
      cancelled = false;
      idle = p.idle + p.worker_count;
      dispatchers = suc p.dispatchers;
      active_workers = p.worker_count;
      started = true;
    })

-- `Stop`; it takes the lock when no call is between its send and its count, and panics where it
-- closes channels that an earlier `Stop` has closed
unfoldable pub stop : Pool → Sent
stop p =
    if not (p.uncounted == 0)
    then waits
    else if not p.started
    then done p
    else if p.closed
    then panics
    else done (record p { cancelled = true; closed = true; started = false })

-- the end of the context that `Start` was given: before `Start` there is none
unfoldable pub cancel : Pool → Sent
cancel p = done (record p { cancelled = p.cancelled || p.started })

abbrev pub is_urgent : Job → Bool
is_urgent job = ltb_ℤ (pos 5) job.priority

abbrev pub has_room : Pool → Bool
has_room p = ltb (length p.job_queue) p.max_queue_size

abbrev pub has_priority_room : Pool → Bool
has_priority_room p = ltb (length p.priority_queue) (p.max_queue_size / 4)

abbrev pub queued : Job → Pool → Pool
queued job p = record p { job_queue = p.job_queue ++ (job ∷ []); uncounted = suc p.uncounted }

abbrev pub priority_queued : Job → Pool → Pool
priority_queued job p = record p {
  priority_queue = p.priority_queue ++ (job ∷ []);
  uncounted = suc p.uncounted;
}

-- `Submit`, up to its count of the job
unfoldable pub submit : Job → Pool → Sent
submit job p =
    if not p.started
    then refused (text "worker pool not started")
    else if p.closed
    then panics
    else if is_urgent job
    then if has_priority_room p
      then done (priority_queued job p)
      else refused (text "priority queue is full")
    else if has_room p
    then done (queued job p)
    else refused (text "job queue is full")

-- `SubmitWithTimeout`, up to its count of the job: it waits for room until its time has passed
unfoldable pub submit_with_timeout : Job → Bool → Pool → Sent
submit_with_timeout job expired p =
    if not p.started
    then refused (text "worker pool not started")
    else if expired
    then refused (text "job submission timeout")
    else if p.closed
    then panics
    else if is_urgent job
    then if has_priority_room p then done (priority_queued job p) else waits
    else if has_room p
    then done (queued job p)
    else waits

-- `atomic.AddInt64(&wp.stats.TotalJobs, 1)`
unfoldable pub count : ℕ → Pool → Sent
count zero p = waits
count (suc n) p = done (record p { uncounted = n; total_jobs = inc max_int64 p.total_jobs })
