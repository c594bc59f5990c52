-- ===== src/WorkerPool/Conservation.antt =====
-- Where the jobs of internal/performance/worker_pool.go are, and what a turn keeps of it.
use roost_keeper.Prelude.{
  ◌+◌, ◌≤◌, ◌≡◌, ◌∷◌, ◌++◌, if◌then◌else◌, ℕ, List, Option, Bool, suc, pos, true, false, none, some,
  [], refl, arith, length,
}
use roost_keeper.Roost.{Message}
use roost_keeper.WorkerPool.{Job, Pool, Sent, done, refused, waits, panics}
use roost_keeper.WorkerPool.Loops.{
  is_over, pick, process, turn, Turn, submits, submits_with_timeout, drops, finishes,
}

-- what has become of jobs: those whose send has succeeded, that a worker has processed, and that a
-- dispatcher has dropped, the last one first
pub record History : Type 0 where
  pub sent : List Job
  pub finished : List Job
  pub dropped : List Job

abbrev pub noted_drop : List Job → History → History
noted_drop [] h = h
noted_drop (job ∷ jobs) h = record h { dropped = job ∷ h.dropped }

abbrev pub noted_finish : Option (Job × List Job) → History → History
noted_finish none h = h
noted_finish (some (job, jobs)) h = record h { finished = job ∷ h.finished }

-- the history after a turn that is done
abbrev pub note : Turn → Pool → History → History
note (submits job) p h = record h { sent = job ∷ h.sent }
note (submits_with_timeout job expired) p h = record h { sent = job ∷ h.sent }
note drops p h = noted_drop p.held h
note (finishes i) p h = noted_finish (pick i p.running) h
note _ p h = h

-- the history of a run
abbrev pub history : List Turn → Pool → History → History
history [] p h = h
history (t ∷ ts) p h =
    let same = history ts p h in
    elim (turn t p) [
      | done p' ↦ history ts p' (note t p h)
      | refused e ↦ same
      | waits ↦ same
      | panics ↦ h
    ]

-- how many jobs pass a test
abbrev pub number : (Job → Bool) → List Job → ℕ
number q [] = 0
number q (job ∷ jobs) = (if q job then 1 else 0) + number q jobs

pub number-append :
    (q : Job → Bool) (xs ys : List Job) → number q (xs ++ ys) ≡ number q xs + number q ys
number-append q [] ys = omega arith
number-append q (x ∷ xs) ys = omega (arith, number-append q xs ys)

abbrev succeeds_with : Option Message → Bool
succeeds_with none = true
succeeds_with (some e) = false

abbrev fails_with : Option Message → Bool
fails_with none = false
fails_with (some e) = true

-- whether a worker processes the job without an error, or with one
abbrev pub succeeds : Job → Bool
succeeds job = succeeds_with (process job)

abbrev pub fails : Job → Bool
fails job = fails_with (process job)

-- each job that has been sent is in a queue, with a dispatcher or with a worker, or has been
-- finished or dropped: the numbers agree for every test of the jobs
abbrev pub ArePlaced : Pool → History → Type 0
ArePlaced p h =
    (q : Job → Bool)
    → number q h.sent
      ≡ number q p.job_queue
        + number q p.priority_queue
        + number q p.held
        + number q p.running
        + number q h.finished
        + number q h.dropped

-- the jobs are placed, the counters are those of the sent jobs, of which a call may not have counted
-- some yet, and of the finished ones, and dropping needs the end of a context
abbrev pub IsAccounted : Pool → History → Type 0
IsAccounted p h =
    ArePlaced p h
    × ((t : ℕ) × (p.total_jobs ≡ pos t) × (t + p.uncounted ≡ length h.sent))
    × (p.completed_jobs ≡ pos (number succeeds h.finished))
    × (p.failed_jobs ≡ pos (number fails h.finished))
    × (is_over p ≡ false → h.dropped ≡ [])

-- at most `n` jobs have been sent, and no context has ended before a start
abbrev pub IsConserved : ℕ → Pool → History → Type 0
IsConserved n p h =
    IsAccounted p h
    × (length h.sent ≤ n)
    × (p.started ≡ false → p.closed ≡ false → p.cancelled ≡ false)

-- a turn ends in a pool that conserves the jobs too, with the history `h'` where it is done
abbrev pub Leads : ℕ → Pool → History → History → Sent → Type 0
Leads n p h h' (done p') = IsConserved (suc n) p' h'
Leads n p h h' (refused e) = IsConserved (suc n) p h
Leads n p h h' waits = IsConserved (suc n) p h
Leads n p h h' panics = Unit

pub later : (n : ℕ) (p : Pool) (h : History) → IsConserved n p h → IsConserved (suc n) p h
later n p h (accounted, bound, fresh) = (accounted, ground (arith, bound), fresh)

pub Leads-if :
    (n : ℕ) (p : Pool) (h h' : History) (b : Bool) (x y : Sent)
    → (b ≡ true → Leads n p h h' x)
    → (b ≡ false → Leads n p h h' y)
    → Leads n p h h' (if b then x else y)
Leads-if n p h h' true x y f g = f refl
Leads-if n p h h' false x y f g = g refl
