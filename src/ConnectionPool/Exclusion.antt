-- ===== src/ConnectionPool/Exclusion.antt =====
-- Two callers of internal/performance/connection_pool.go do not have the same connection.
use roost_keeper.Prelude.{
  ◌+◌, ◌≤◌, ◌<◌, ◌≡◌, ◌∙◌, ◌∷◌, ◌++◌, ◌==◌, if◌then◌else◌, ℕ, ℤ, String, List, suc, true, [], refl,
  ap, inl, inr, arith, ltb, Bool-cases, length, length-append,
}
use roost_keeper.ConnectionPool.{
  Pool, create_pool, destroy_connection, create_connection, is_fresh, missed, taken_from,
  get_connection, return_connection, checked, check_all, health_check, addresses, destroy_all,
  idle_too_long, cleanup, is_connection_healthy,
}

-- how often an address is in a list
abbrev pub occurs : ℕ → List ℕ → ℕ
occurs a [] = 0
occurs a (x ∷ xs) = (if x == a then 1 else 0) + occurs a xs

-- a list without one occurrence of an address
abbrev pub without : ℕ → List ℕ → List ℕ
without a [] = []
without a (x ∷ xs) = let rest = without a xs in if x == a then xs else x ∷ rest

-- a call of a method by a caller that returns only what it has, or a turn of a loop
pub data Turn : Type 0 where
  gets : String → ℕ → Turn
  returns : ℕ → ℕ → Turn
  checks cleans : ℕ → Turn

-- the pool, and the addresses of the connections that callers have
abbrev pub Lending : Type 0
Lending = Pool × List ℕ

abbrev lend : List ℕ → ℕ × Pool → Lending
lend lent (a, p) = (p, a ∷ lent)

unfoldable pub step : Turn → Lending → Lending
unfolding get_connection return_connection health_check cleanup
step (gets id now) (p, lent) = lend lent (get_connection id now p)
step (returns now a) (p, lent) =
    if ltb 0 (occurs a lent) then (return_connection now a p, without a lent) else (p, lent)
step (checks now) (p, lent) = (health_check now p, lent)
step (cleans now) (p, lent) = (cleanup now p, lent)

unfoldable pub run : List Turn → Lending → Lending
unfolding step
run [] s = s
run (t ∷ ts) s = run ts (step t s)

-- an address is in the channel or with a caller, once at most, and the channel has its bound
abbrev pub IsExclusive : Lending → Type 0
IsExclusive (p, lent) =
    ((a : ℕ) → occurs a p.idle + occurs a lent ≤ (if ltb a p.next then 1 else 0))
    × (length p.idle ≤ p.max_connections)

occurs-append :
    (a b : ℕ) (xs : List ℕ) → occurs b (xs ++ (a ∷ [])) ≡ occurs b xs + occurs b (a ∷ [])
occurs-append a b [] = omega arith
occurs-append a b (x ∷ xs) = omega (arith, occurs-append a b xs)

occurs-without :
    (a b : ℕ) (xs : List ℕ)
    → 0 < occurs a xs
    → occurs b (without a xs) + occurs b (a ∷ []) ≡ occurs b xs
occurs-without a b [] h = absurd (omega (arith, h))
occurs-without a b (x ∷ xs) h = ground (arith, occurs-without a b xs, h)

-- destroying and checking leave the channel, its bound and the addresses as they are
abbrev SamePlaces : Pool → Pool → Type 0
SamePlaces p q = (q.idle ≡ p.idle) × (q.next ≡ p.next) × (q.max_connections ≡ p.max_connections)

destroy_all-SamePlaces : (xs : List ℕ) (p : Pool) → SamePlaces p (destroy_all xs p)
unfolding destroy_connection
destroy_all-SamePlaces [] p = (refl, refl, refl)
destroy_all-SamePlaces (a ∷ xs) p = destroy_all-SamePlaces xs (destroy_connection a p)

checked-SamePlaces : (now a : ℕ) (p : Pool) → SamePlaces p (checked now a p)
unfolding destroy_connection
checked-SamePlaces now a p = elim (Bool-cases (is_connection_healthy now (p.store a) p)) [
  | inl e ↦ rw e (refl, refl, refl)
  | inr e ↦ elim (Bool-cases ((p.store a).in_use)) [
    | inl u ↦ rw (e, u) (refl, refl, refl)
    | inr u ↦ rw (e, u) (refl, refl, refl)
  ]
]

check_all-SamePlaces :
    (now : ℕ) (xs : List ℕ) (well ill : ℕ) (p : Pool) → SamePlaces p (check_all now xs well ill p)
check_all-SamePlaces now [] well ill p = (refl, refl, refl)
check_all-SamePlaces now (a ∷ xs) well ill p =
    let healthy = is_connection_healthy now (p.store a) p in
    let (i, n, m) = checked-SamePlaces now a p in
    let (i', n', m') =
      check_all-SamePlaces now xs (if healthy then suc well else well)
        (if healthy then ill else suc ill) (checked now a p) in
    (i' ∙ i, n' ∙ n, m' ∙ m)

same-IsExclusive :
    (p q : Pool) (lent : List ℕ) → SamePlaces p q → IsExclusive (p, lent) → IsExclusive (q, lent)
same-IsExclusive p q lent (i, n, m) h = rw (i, n, m) h

missed-IsExclusive :
    (id : String) (now : ℕ) (p : Pool) (lent : List ℕ)
    → IsExclusive (p, lent)
    → IsExclusive (lend lent (missed id now p))
unfolding create_connection
missed-IsExclusive id now p lent (once, bound) = (λ a. ground (arith, once a), bound)

taken_from-IsExclusive :
    (id : String) (now : ℕ) (idle : List ℕ) (p : Pool) (lent : List ℕ)
    → p.idle ≡ idle
    → IsExclusive (p, lent)
    → IsExclusive (lend lent (taken_from id now idle p))
unfolding destroy_connection
taken_from-IsExclusive id now [] p lent e h = missed-IsExclusive id now p lent h
taken_from-IsExclusive id now (b ∷ idle) p lent e (once, bound) =
    let q = record p { idle = idle } in
    let fewer : IsExclusive (q, lent) =
      (λ a. ground (arith, once a, e, ap (occurs a) e), ground (arith, bound, ap length e)) in
    elim (Bool-cases (is_fresh now b q)) [
      | inl fresh ↦ rw fresh (λ a. ground (arith, once a, ap (occurs a) e), fewer.1)
      | inr old ↦ rw old (missed-IsExclusive id now (destroy_connection b q) lent fewer)
    ]

return_connection-IsExclusive :
    (now a : ℕ) (p : Pool) (lent : List ℕ)
    → 0 < occurs a lent
    → IsExclusive (p, lent)
    → IsExclusive (return_connection now a p, without a lent)
unfolding return_connection destroy_connection
return_connection-IsExclusive now a p lent has (once, bound) =
    elim (Bool-cases (ltb (length p.idle) p.max_connections)) [
      | inl room ↦ rw room (
        λ b. ground (arith, once b, occurs-append a b p.idle, occurs-without a b lent has),
        ground (arith, room, length-append p.idle (a ∷ [])),
      )
      | inr full ↦ rw full (λ b. ground (arith, once b, occurs-without a b lent has), bound)
    ]

step-IsExclusive : (t : Turn) (s : Lending) → IsExclusive s → IsExclusive (step t s)
unfolding step get_connection health_check cleanup
step-IsExclusive (gets id now) (p, lent) h = taken_from-IsExclusive id now p.idle p lent refl h
step-IsExclusive (returns now a) (p, lent) h = elim (Bool-cases (ltb 0 (occurs a lent))) [
  | inl has ↦ rw has (return_connection-IsExclusive now a p lent (ground (arith, has)) h)
  | inr lacks ↦ rw lacks h
]
step-IsExclusive (checks now) (p, lent) h =
    same-IsExclusive p (health_check now p) lent
      (check_all-SamePlaces now (addresses p.active) 0 0 p) h
step-IsExclusive (cleans now) (p, lent) h =
    same-IsExclusive p (cleanup now p) lent
      (destroy_all-SamePlaces (idle_too_long now (addresses p.active) p) p) h

run-IsExclusive : (ts : List Turn) (s : Lending) → IsExclusive s → IsExclusive (run ts s)
unfolding run
run-IsExclusive [] s h = h
run-IsExclusive (t ∷ ts) s h = run-IsExclusive ts (step t s) (step-IsExclusive t s h)

-- a connection that is lent for the first time, and is fit for use
abbrev pub IsLent : List ℕ → ℕ × Pool → Type 0
IsLent lent (a, p) =
    (occurs a lent ≡ 0) × ((p.store a).in_use ≡ true) × ((p.store a).healthy ≡ true)

lend-once : (lent : List ℕ) (r : ℕ × Pool) → IsExclusive (lend lent r) → occurs (r.0) lent ≡ 0
lend-once lent (a, p) (once, bound) = ground (arith, once a)

missed-fit :
    (id : String) (now : ℕ) (p : Pool)
    → (((missed id now p).1.store (missed id now p).0).in_use ≡ true)
      × (((missed id now p).1.store (missed id now p).0).healthy ≡ true)
unfolding create_connection
missed-fit id now p = ground arith

taken_from-fit :
    (id : String) (now : ℕ) (idle : List ℕ) (p : Pool)
    → (((taken_from id now idle p).1.store (taken_from id now idle p).0).in_use ≡ true)
      × (((taken_from id now idle p).1.store (taken_from id now idle p).0).healthy ≡ true)
taken_from-fit id now [] p = missed-fit id now p
taken_from-fit id now (b ∷ idle) p =
    let q = record p { idle = idle } in
    elim (Bool-cases (is_fresh now b q)) [
      | inl fresh ↦ rw fresh (ground (arith, fresh))
      | inr old ↦ rw old (missed-fit id now (destroy_connection b q))
    ]

get-IsLent :
    (id : String) (now : ℕ) (s : Lending)
    → IsExclusive s
    → IsLent (s.1) (get_connection id now (s.0))
unfolding get_connection
get-IsLent id now (p, lent) h =
    let (used, healthy) = taken_from-fit id now p.idle p in
    (
      lend-once lent (taken_from id now p.idle p)
          (taken_from-IsExclusive id now p.idle p lent refl h),
      used,
      healthy,
    )

-- After any calls on a new pool whose callers return only connections that they have, with checks
-- and cleanups between them, no connection is in the channel twice, with two callers, or in the
-- channel and with a caller, and the channel has at most its number of places; the next connection
-- that `getConnection` returns is with no caller, in use and healthy.
pub run-IsLent :
    (places : ℕ) (max_idle_time : ℤ) (ts : List Turn) (id : String) (now : ℕ)
    → IsExclusive (run ts (create_pool places max_idle_time, []))
      × IsLent
          (run ts (create_pool places max_idle_time, [])).1
          (get_connection id now (run ts (create_pool places max_idle_time, [])).0)
unfolding create_pool
run-IsLent places max_idle_time ts id now =
    let h =
      run-IsExclusive ts (create_pool places max_idle_time, []) ((λ a. omega arith), omega arith) in
    (h, get-IsLent id now (run ts (create_pool places max_idle_time, [])) h)
