-- ===== src/WorkerPool/Calls.antt =====
-- The calls of internal/performance/worker_pool.go lose no job.
use roost_keeper.Prelude.{
  ◌<◌, ◌≡◌, ◌∷◌, ◌==◌, ℕ, Bool, zero, suc, not, [], refl, arith, max_int64, inc-pos,
}
use roost_keeper.WorkerPool.{
  Job, Pool, done, start, stop, cancel, is_urgent, has_room, has_priority_room, queued,
  priority_queued, submit, submit_with_timeout, count,
}
use roost_keeper.WorkerPool.Conservation.{
  History, IsConserved, Leads, later, Leads-if, number-append,
}

pub start-Leads : (n : ℕ) (p : Pool) (h : History) → IsConserved n p h → Leads n p h h (start p)
unfolding start
start-Leads n p h ((placed, total, ec, ef, kept), bound, fresh) =
    Leads-if n p h h p.started _ _ (λ e. later n p h ((placed, total, ec, ef, kept), bound, fresh))
      (λ e. (
        (placed, total, ec, ef, λ o. kept (rw (fresh e o, o) refl)),
        ground (arith, bound),
        λ a o. refl,
      ))

pub stop-Leads : (n : ℕ) (p : Pool) (h : History) → IsConserved n p h → Leads n p h h (stop p)
unfolding stop
stop-Leads n p h ((placed, total, ec, ef, kept), bound, fresh) =
    let same = later n p h ((placed, total, ec, ef, kept), bound, fresh) in
    Leads-if n p h h (not (p.uncounted == 0)) _ _ (λ e. same)
      (λ e.
        Leads-if n p h h (not p.started) _ _ (λ e. same)
          (λ e.
            Leads-if n p h h p.closed _ _ (λ e. tt)
              (λ e. (
                (placed, total, ec, ef, λ o. absurd (cc)),
                ground (arith, bound),
                λ a o. absurd (cc),
              ))))

pub cancel-Leads : (n : ℕ) (p : Pool) (h : History) → IsConserved n p h → Leads n p h h (cancel p)
unfolding cancel
cancel-Leads n p h ((placed, total, ec, ef, kept), bound, fresh) = (
  (placed, total, ec, ef, λ o. kept (ground (arith, o))),
  ground (arith, bound),
  λ a o. ground (arith, a, fresh a o),
)

-- the history after the send of a job
abbrev pub with_sent : Job → History → History
with_sent job h = record h { sent = job ∷ h.sent }

queued-Leads :
    (n : ℕ) (job : Job) (p : Pool) (h : History)
    → IsConserved n p h
    → Leads n p h (with_sent job h) (done (queued job p))
queued-Leads n job p h ((placed, (t, et, all), ec, ef, kept), bound, fresh) = (
  (
    λ q. ground (arith, placed q, number-append q p.job_queue (job ∷ [])),
    (t, et, ground (arith, all)),
    ec,
    ef,
    kept,
  ),
  ground (arith, bound),
  fresh,
)

priority-Leads :
    (n : ℕ) (job : Job) (p : Pool) (h : History)
    → IsConserved n p h
    → Leads n p h (with_sent job h) (done (priority_queued job p))
priority-Leads n job p h ((placed, (t, et, all), ec, ef, kept), bound, fresh) = (
  (
    λ q. ground (arith, placed q, number-append q p.priority_queue (job ∷ [])),
    (t, et, ground (arith, all)),
    ec,
    ef,
    kept,
  ),
  ground (arith, bound),
  fresh,
)

pub submit-Leads :
    (n : ℕ) (job : Job) (p : Pool) (h : History)
    → IsConserved n p h
    → Leads n p h (with_sent job h) (submit job p)
unfolding submit
submit-Leads n job p h k =
    let h' = with_sent job h in
    Leads-if n p h h' (not p.started) _ _ (λ e. later n p h k)
      (λ e.
        Leads-if n p h h' p.closed _ _ (λ e. tt)
          (λ e.
            Leads-if n p h h' (is_urgent job) _ _
              (λ e.
                Leads-if n p h h' (has_priority_room p) _ _ (λ e. priority-Leads n job p h k)
                  (λ e. later n p h k))
              (λ e.
                Leads-if n p h h' (has_room p) _ _ (λ e. queued-Leads n job p h k)
                  (λ e. later n p h k))))

pub submit_with_timeout-Leads :
    (n : ℕ) (job : Job) (expired : Bool) (p : Pool) (h : History)
    → IsConserved n p h
    → Leads n p h (with_sent job h) (submit_with_timeout job expired p)
unfolding submit_with_timeout
submit_with_timeout-Leads n job expired p h k =
    let h' = with_sent job h in
    Leads-if n p h h' (not p.started) _ _ (λ e. later n p h k)
      (λ e.
        Leads-if n p h h' expired _ _ (λ e. later n p h k)
          (λ e.
            Leads-if n p h h' p.closed _ _ (λ e. tt)
              (λ e.
                Leads-if n p h h' (is_urgent job) _ _
                  (λ e.
                    Leads-if n p h h' (has_priority_room p) _ _ (λ e. priority-Leads n job p h k)
                      (λ e. later n p h k))
                  (λ e.
                    Leads-if n p h h' (has_room p) _ _ (λ e. queued-Leads n job p h k)
                      (λ e. later n p h k)))))

pub count-Leads :
    (n m : ℕ) (p : Pool) (h : History)
    → m ≡ p.uncounted
    → n < max_int64
    → IsConserved n p h
    → Leads n p h h (count m p)
unfolding count
count-Leads n zero p h e room k = later n p h k
count-Leads n (suc m) p h e room ((placed, (t, et, all), ec, ef, kept), bound, fresh) = (
  (
    placed,
    (
      suc t,
      rw et (inc-pos max_int64 t (ground (arith, e, all, bound, room))),
      ground (arith, e, all),
    ),
    ec,
    ef,
    kept,
  ),
  ground (arith, bound),
  fresh,
)
