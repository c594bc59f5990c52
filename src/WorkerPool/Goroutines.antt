-- ===== src/WorkerPool/Goroutines.antt =====
-- The dispatcher and the workers of internal/performance/worker_pool.go lose no job while the
-- context lasts and the channels are open.
use roost_keeper.Prelude.{
  ◌+◌, ◌≤◌, ◌<◌, ◌≡◌, ◌∙◌, ◌∷◌, ℕ, ℤ, List, Option, Bool, zero, suc, pos, true, none, some, [],
  refl, ap, inl, inr, arith, Option-cases, length, inc, max_int64, inc-pos,
}
use roost_keeper.WorkerPool.{Job, Pool, has_room}
use roost_keeper.WorkerPool.Loops.{
  receive, is_over, dispatcher_leaves, send, drop, take_job, take_priority_job, worker_leaves,
  process, counted, keeping, pick, finish,
}
use roost_keeper.WorkerPool.Conservation.{
  History, noted_drop, noted_finish, number, number-append, succeeds, fails, ArePlaced, IsConserved,
  Leads, later, Leads-if,
}

pub receive-Leads :
    (n m : ℕ) (jobs : List Job) (p : Pool) (h : History)
    → jobs ≡ p.priority_queue
    → IsConserved n p h
    → Leads n p h h (receive m jobs p)
unfolding receive
receive-Leads n zero jobs p h e k = later n p h k
receive-Leads n (suc m) [] p h e k =
    Leads-if n p h h p.closed _ _ (λ c. later n p h k) (λ c. later n p h k)
receive-Leads n (suc m) (job ∷ jobs) p h e ((placed, total, ec, ef, kept), bound, fresh) = (
  (λ q. ground (arith, placed q, ap (number q) e), total, ec, ef, kept),
  ground (arith, bound),
  fresh,
)

pub dispatcher_leaves-Leads :
    (n m : ℕ) (p : Pool) (h : History) → IsConserved n p h → Leads n p h h (dispatcher_leaves m p)
unfolding dispatcher_leaves
dispatcher_leaves-Leads n zero p h k = later n p h k
dispatcher_leaves-Leads n (suc m) p h k =
    Leads-if n p h h (is_over p) _ _ (λ c. later n p h k) (λ c. later n p h k)

pub send-Leads :
    (n : ℕ) (jobs : List Job) (p : Pool) (h : History)
    → jobs ≡ p.held
    → IsConserved n p h
    → Leads n p h h (send jobs p)
unfolding send
send-Leads n [] p h e k = later n p h k
send-Leads n (job ∷ jobs) p h e ((placed, total, ec, ef, kept), bound, fresh) =
    Leads-if n p h h p.closed _ _ (λ o. tt)
      (λ o.
        Leads-if n p h h (has_room p) _ _
          (λ room. (
            (
              λ q.
                  ground (arith, placed q, ap (number q) e, number-append q p.job_queue (job ∷ [])),
              total,
              ec,
              ef,
              kept,
            ),
            ground (arith, bound),
            fresh,
          ))
          (λ full. later n p h ((placed, total, ec, ef, kept), bound, fresh)))

pub drop-Leads :
    (n : ℕ) (jobs : List Job) (p : Pool) (h : History)
    → jobs ≡ p.held
    → IsConserved n p h
    → Leads n p h (noted_drop jobs h) (drop jobs p)
unfolding drop
drop-Leads n [] p h e k = later n p h k
drop-Leads n (job ∷ jobs) p h e ((placed, total, ec, ef, kept), bound, fresh) =
    Leads-if n p h (noted_drop (job ∷ jobs) h) (is_over p) _ _
      (λ over. (
        (λ q. ground (arith, placed q, ap (number q) e), total, ec, ef, λ o. absurd (cc)),
        ground (arith, bound),
        fresh,
      ))
      (λ o. later n p h ((placed, total, ec, ef, kept), bound, fresh))

pub take_job-Leads :
    (n m : ℕ) (jobs : List Job) (p : Pool) (h : History)
    → jobs ≡ p.job_queue
    → IsConserved n p h
    → Leads n p h h (take_job m jobs p)
unfolding take_job
take_job-Leads n zero jobs p h e k = later n p h k
take_job-Leads n (suc m) [] p h e k =
    Leads-if n p h h p.closed _ _ (λ c. later n p h k) (λ c. later n p h k)
take_job-Leads n (suc m) (job ∷ jobs) p h e ((placed, total, ec, ef, kept), bound, fresh) = (
  (λ q. ground (arith, placed q, ap (number q) e), total, ec, ef, kept),
  ground (arith, bound),
  fresh,
)

pub take_priority_job-Leads :
    (n m : ℕ) (jobs : List Job) (p : Pool) (h : History)
    → jobs ≡ p.priority_queue
    → IsConserved n p h
    → Leads n p h h (take_priority_job m jobs p)
unfolding take_priority_job
take_priority_job-Leads n zero jobs p h e k = later n p h k
take_priority_job-Leads n (suc m) [] p h e k =
    Leads-if n p h h p.closed _ _ (λ c. later n p h k) (λ c. later n p h k)
take_priority_job-Leads n (suc m) (job ∷ jobs) p h e ((placed, total, ec, ef, kept), bound, fresh) =
    (
      (λ q. ground (arith, placed q, ap (number q) e), total, ec, ef, kept),
      ground (arith, bound),
      fresh,
    )

pub worker_leaves-Leads :
    (n m : ℕ) (p : Pool) (h : History) → IsConserved n p h → Leads n p h h (worker_leaves m p)
unfolding worker_leaves
worker_leaves-Leads n zero p h k = later n p h k
worker_leaves-Leads n (suc m) p h k =
    Leads-if n p h h (is_over p) _ _ (λ c. later n p h k) (λ c. later n p h k)

-- the job that is picked and those that are left are the jobs
abbrev pub IsSplit : List Job → Option (Job × List Job) → Type 0
IsSplit jobs none = Unit
IsSplit jobs (some (job, rest)) = (q : Job → Bool) → number q jobs ≡ number q (job ∷ rest)

keeping-IsSplit :
    (job : Job) (jobs : List Job) (r : Option (Job × List Job))
    → IsSplit jobs r
    → IsSplit (job ∷ jobs) (keeping job r)
keeping-IsSplit job jobs none h = tt
keeping-IsSplit job jobs (some (found, rest)) h = λ q. ground (arith, h q)

pub pick-IsSplit : (i : ℕ) (jobs : List Job) → IsSplit jobs (pick i jobs)
pick-IsSplit i [] = tt
pick-IsSplit zero (job ∷ jobs) = λ q. refl
pick-IsSplit (suc i) (job ∷ jobs) = keeping-IsSplit job jobs (pick i jobs) (pick-IsSplit i jobs)

number-le : (q : Job → Bool) (jobs : List Job) → number q jobs ≤ number (λ job. true) jobs
number-le q [] = omega arith
number-le q (job ∷ jobs) = ground (arith, number-le q jobs)

number-all : (jobs : List Job) → number (λ job. true) jobs ≡ length jobs
number-all [] = refl
number-all (job ∷ jobs) = omega (arith, number-all jobs)

-- no more jobs have been finished than sent
finished_le :
    (q : Job → Bool) (p : Pool) (h : History) → ArePlaced p h → number q h.finished ≤ length h.sent
finished_le q p h placed =
    ground (arith, placed (λ job. true), number-le q h.finished, number-all h.sent)

count_more : {z : ℤ} (n : ℕ) → z ≡ pos n → n < max_int64 → inc max_int64 z ≡ pos (1 + n)
count_more n e room = rw e (inc-pos max_int64 n room ∙ ap pos more)
  where
    more : suc n ≡ 1 + n
    more = omega arith

count_same : {z : ℤ} (n : ℕ) → z ≡ pos n → z ≡ pos (0 + n)
count_same n e = e ∙ ap pos same
  where
    same : n ≡ 0 + n
    same = omega arith

counted-IsConserved :
    (n : ℕ) (p : Pool) (h : History) (job : Job) (jobs : List Job)
    → ((q : Job → Bool) → number q p.running ≡ number q (job ∷ jobs))
    → n < max_int64
    → IsConserved n p h
    → IsConserved
        (suc n)
        (counted (process job) (record p { idle = suc p.idle; running = jobs }))
        (record h { finished = job ∷ h.finished })
counted-IsConserved n p h job jobs e room ((placed, total, ec, ef, kept), bound, fresh) =
    elim (Option-cases (process job)) [
      | inl fine ↦ rw fine (
        (
          λ q. ground (arith, placed q, e q),
          total,
          count_more (number succeeds h.finished) ec
              (ground (arith, finished_le succeeds p h placed, bound, room)),
          count_same (number fails h.finished) ef,
          kept,
        ),
        ground (arith, bound),
        fresh,
      )
      | inr (m, wrong) ↦ rw wrong (
        (
          λ q. ground (arith, placed q, e q),
          total,
          count_same (number succeeds h.finished) ec,
          count_more (number fails h.finished) ef
              (ground (arith, finished_le fails p h placed, bound, room)),
          kept,
        ),
        ground (arith, bound),
        fresh,
      )
    ]

pub finish-Leads :
    (n : ℕ) (p : Pool) (h : History) (r : Option (Job × List Job))
    → IsSplit p.running r
    → n < max_int64
    → IsConserved n p h
    → Leads n p h (noted_finish r h) (finish r p)
unfolding finish
finish-Leads n p h none e room k = later n p h k
finish-Leads n p h (some (job, jobs)) e room k = counted-IsConserved n p h job jobs e room k
