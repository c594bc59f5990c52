-- ===== src/RollingUpdate/Monitoring.antt =====
-- What the loop of internal/ha/rolling_update.go has seen when it finds a rollout done.
use roost_keeper.Prelude.{
  ◌≡◌, ◌⊎◌, ◌∷◌, ℤ, List, Option, true, none, some, [], refl, inl, inr, arith, eq_iff, str_eq,
  Bool-cases,
}
use roost_keeper.Roost.{Message, text, ok, err}
use roost_keeper.RollingUpdate.{
  settle, check_one, ConditionType, progressing, available, other, Condition, Deployment,
  UpdateStatus, Stage, Signal, cancelled, deadline, tick, Outcome, done, gave_up, waiting, panicked,
  eq_ℤ, all_replicas, check_conditions, observe, go_on, monitor_rollout,
}

-- all replicas that are wanted are updated and ready
abbrev pub HasAllReplicas : Deployment → Type 0
HasAllReplicas d =
    (n : ℤ) × (d.spec_replicas ≡ some n) × (d.updated_replicas ≡ n) × (d.ready_replicas ≡ n)

abbrev pub IsAvailable : List Condition → Type 0
IsAvailable [] = ⊥
IsAvailable (c ∷ cs) = ((c.type_ ≡ available) × (c.status ≡ "True")) ⊎ IsAvailable cs

-- a tick has read such a deployment
abbrev pub Seen : List Signal → Type 0
Seen [] = ⊥
Seen (tick (ok d) ∷ signals) = (HasAllReplicas d × IsAvailable d.conditions) ⊎ Seen signals
Seen (tick (err e) ∷ signals) = Seen signals
Seen (cancelled e ∷ signals) = Seen signals
Seen (deadline ∷ signals) = Seen signals

eq_ℤ-eq : (a b : ℤ) → eq_ℤ a b ≡ true → a ≡ b
eq_ℤ-eq a b h = ground arith

all_replicas-HasAllReplicas :
    (d : Deployment) (o : Option ℤ)
    → d.spec_replicas ≡ o
    → all_replicas d o ≡ done
    → HasAllReplicas d
unfolding all_replicas
all_replicas-HasAllReplicas d none e h = absurd (cc)
all_replicas-HasAllReplicas d (some n) e h = (
  n,
  e,
  eq_ℤ-eq d.updated_replicas n (ground (arith, h)),
  eq_ℤ-eq d.ready_replicas n (ground (arith, h)),
)

Outcome-cases :
    (o : Outcome)
    → (o ≡ done)
      ⊎ ((m : Message) (later : Outcome × Message) → (settle o m later).0 ≡ done → later.0 ≡ done)
Outcome-cases done = inl refl
Outcome-cases waiting = inr (λ m later h. h)
Outcome-cases (gave_up e) = inr (λ m later h. absurd (cc))
Outcome-cases panicked = inr (λ m later h. absurd (cc))

one-Seen :
    (d : Deployment) (c : Condition) (t : ConditionType) (cs : List Condition)
    (next : Message → Outcome × Message) (m : Message)
    → c.type_ ≡ t
    → ((m' : Message) → (next m').0 ≡ done → HasAllReplicas d × IsAvailable cs)
    → (check_one d c t next m).0 ≡ done
    → HasAllReplicas d × IsAvailable (c ∷ cs)
unfolding check_one
one-Seen d c progressing cs next m e rest h = elim (Bool-cases (str_eq c.status "False")) [
  | inl stuck ↦ absurd (ground (arith, stuck, h))
  | inr moving ↦ let (all, there) = rest (text c.message) (rw moving at h) in (all, inr there)
]
one-Seen d c available cs next m e rest h = elim (Bool-cases (str_eq c.status "True")) [
  | inl up ↦ elim (Outcome-cases (all_replicas d d.spec_replicas)) [
    | inl finished ↦ (
      all_replicas-HasAllReplicas d d.spec_replicas refl finished,
      inl (e, (eq_iff c.status "True").0 up),
    )
    | inr unfinished ↦
        let (all, there) = rest m (unfinished m (next m) (rw up at h)) in (all, inr there)
  ]
  | inr down ↦ let (all, there) = rest m (rw down at h) in (all, inr there)
]
one-Seen d c (other t) cs next m e rest h = let (all, there) = rest m h in (all, inr there)

check-Seen :
    (d : Deployment) (cs : List Condition) (m : Message)
    → (check_conditions d cs m).0 ≡ done
    → HasAllReplicas d × IsAvailable cs
unfolding check_conditions
check-Seen d [] m h = absurd (cc)
check-Seen d (c ∷ cs) m h =
    one-Seen d c c.type_ cs (check_conditions d cs) m refl (λ m' k. check-Seen d cs m' k) h

go_on-Seen :
    (next : UpdateStatus → Outcome × UpdateStatus) (r : Outcome × UpdateStatus)
    → (go_on next r).0 ≡ done
    → (r.0 ≡ done) ⊎ ((s : UpdateStatus) × ((next s).0 ≡ done))
go_on-Seen next (done, s) h = inl refl
go_on-Seen next (waiting, s) h = inr (s, h)
go_on-Seen next (gave_up e, s) h = absurd (cc)
go_on-Seen next (panicked, s) h = absurd (cc)

pub monitor-Seen :
    (timeout : ℤ) (signals : List Signal) (s : UpdateStatus)
    → (monitor_rollout timeout signals s).0 ≡ done
    → Seen signals
unfolding monitor_rollout observe
monitor-Seen timeout [] s h = absurd (cc)
monitor-Seen timeout (cancelled e ∷ signals) s h = absurd (cc)
monitor-Seen timeout (deadline ∷ signals) s h = absurd (cc)
monitor-Seen timeout (tick (err e) ∷ signals) s h = absurd (cc)
monitor-Seen timeout (tick (ok d) ∷ signals) s h =
    elim (go_on-Seen (monitor_rollout timeout signals) (observe d s) h) [
      | inl now ↦ inl (check-Seen d d.conditions s.message now)
      | inr (s', later) ↦ inr (monitor-Seen timeout signals s' later)
    ]

go_on-status :
    (next : UpdateStatus → Outcome × UpdateStatus) (r : Outcome × UpdateStatus) (g : Stage)
    → r.1.status ≡ g
    → ((s : UpdateStatus) → s.status ≡ g → (next s).1.status ≡ g)
    → (go_on next r).1.status ≡ g
go_on-status next (done, s) g h k = h
go_on-status next (waiting, s) g h k = k s h
go_on-status next (gave_up e, s) g h k = h
go_on-status next (panicked, s) g h k = h

pub monitor-status :
    (timeout : ℤ) (signals : List Signal) (g : Stage) (s : UpdateStatus)
    → s.status ≡ g
    → (monitor_rollout timeout signals s).1.status ≡ g
unfolding monitor_rollout observe
monitor-status timeout [] g s h = h
monitor-status timeout (cancelled e ∷ signals) g s h = h
monitor-status timeout (deadline ∷ signals) g s h = h
monitor-status timeout (tick (err e) ∷ signals) g s h = h
monitor-status timeout (tick (ok d) ∷ signals) g s h =
    go_on-status (monitor_rollout timeout signals) (observe d s) g h
      (λ s' k. monitor-status timeout signals g s' k)
