-- ===== src/HealthCache/Reads.antt =====
-- What the cache of cache.go answers: a read after each of the other calls.
use roost_keeper.Prelude.{
  ◌≤◌, ◌≡◌, ◌∙◌, if◌then◌else◌, ℕ, ℤ, String, Option, pos, true, none, some, refl, inl, inr, arith,
  eq_iff, str_eq, Option-cases, ltb_ℤ, inc, max_int64, lookup, lookup-insert, lookup-delete,
  lookup-delete_all, keys_where, passes, member-keys_where,
}
use roost_keeper.Health.{HealthResult, since}
use roost_keeper.HealthCache.{
  Entry, Cache, has_expired, remove_expired, get, set, perform_cleanup, update_ttl,
}
use roost_keeper.HealthCache.Invariant.{IsValid}

-- the answer of a `Get`
abbrev pub answer_at : ℕ → String → Cache → Option HealthResult
answer_at now name c = (get now name c).answer

abbrev fresh_of : ℕ → Option Entry → Option HealthResult
fresh_of now none = none
fresh_of now (some e) = if has_expired now e then none else some e.result

-- the answer for an entry under another time to live
abbrev pub retimed : ℕ → ℤ → Option Entry → Option HealthResult
retimed later ttl none = none
retimed later ttl (some e) = if ltb_ℤ ttl (since later e.timestamp) then none else some e.result

answer-fresh_of :
    (now : ℕ) (name : String) (c : Cache)
    → answer_at now name c ≡ fresh_of now (lookup name c.entries)
unfolding get
answer-fresh_of now name c = ground arith

-- what has expired stays expired
has_expired_mono :
    (now later : ℕ) (e : Entry)
    → now ≤ later
    → has_expired now e ≡ true
    → has_expired later e ≡ true
unfolding has_expired
has_expired_mono now later e h x = ground arith

-- A `Get` after a `Set` answers the result that was set, for as long as its time to live says,
-- and nothing after that; every other name is answered as before.
pub answer_at-set :
    (now later : ℕ) (k j : String) (r : HealthResult) (ttl : ℤ) (c : Cache)
    → answer_at later j (set now k r ttl c) ≡ (
        if str_eq k j
        then if ltb_ℤ ttl (since later now) then none else some r
        else answer_at later j c)
unfolding set has_expired
answer_at-set now later k j r ttl c = ground (
  arith,
  answer-fresh_of later j (set now k r ttl c),
  answer-fresh_of later j c,
  lookup-insert k j (record { result = r; timestamp = now; ttl = ttl; hit_count = pos 0 })
      c.entries,
)

-- the cleanup's effect on one name
cleanup_fresh :
    (now later : ℕ) (o : Option Entry)
    → now ≤ later
    → fresh_of later (if passes (has_expired now) o then none else o) ≡ fresh_of later o
cleanup_fresh now later none h = refl
cleanup_fresh now later (some e) h = ground (arith, has_expired_mono now later e)

-- the hit count has no part in the expiry
same_expiry :
    (now : ℕ) (e : Entry) (n : ℤ) → has_expired now (record e { hit_count = n }) ≡ has_expired now e
unfolding has_expired
same_expiry now e n = refl

-- A cleanup of a cache that holds every name at most once drops nothing that a `Get` at that
-- instant or later could have answered.
pub answer_at-perform_cleanup :
    (now later : ℕ) (j : String) (c : Cache)
    → now ≤ later
    → IsValid c
    → answer_at later j (perform_cleanup now c) ≡ answer_at later j c
unfolding perform_cleanup
answer_at-perform_cleanup now later j c h v =
    let p = has_expired now in
    cc (
      answer-fresh_of later j (perform_cleanup now c),
      answer-fresh_of later j c,
      lookup-delete_all (keys_where p c.entries) j c.entries,
      member-keys_where p j c.entries v.distinct,
      cleanup_fresh now later (lookup j c.entries) h,
    )

-- The goroutine that a `Get` of an expired name starts drops nothing that a `Get` at the instant at
-- which it runs, or later, could have answered: it checks again, so that an entry that was set in
-- the meantime stays.
pub answer_at-remove_expired :
    (now later : ℕ) (k j : String) (c : Cache)
    → now ≤ later
    → answer_at later j (remove_expired now k c) ≡ answer_at later j c
unfolding remove_expired
answer_at-remove_expired now later k j c h =
    answer-fresh_of later j (remove_expired now k c) ∙ elim (Option-cases (lookup k c.entries)) [
      | inl e ↦ ground (arith, answer-fresh_of later j c)
      | inr (e, found) ↦ ground (
        arith,
        answer-fresh_of later j c,
        lookup-delete k j c.entries,
        eq_iff k j,
        has_expired_mono now later e,
      )
    ]

-- A `Get` changes no later answer.
pub answer_at-get :
    (now later : ℕ) (k j : String) (c : Cache)
    → answer_at later j (get now k c).cache ≡ answer_at later j c
unfolding get
answer_at-get now later k j c =
    answer-fresh_of later j (get now k c).cache ∙ elim (Option-cases (lookup k c.entries)) [
      | inl e ↦ ground (arith, answer-fresh_of later j c)
      | inr (e, found) ↦ ground (
        arith,
        answer-fresh_of later j c,
        lookup-insert k j (record e { hit_count = inc max_int64 e.hit_count }) c.entries,
        eq_iff k j,
        same_expiry later e (inc max_int64 e.hit_count),
      )
    ]

-- `UpdateTTL` of a cached name makes later reads of it expire by the new time to live, counted from
-- the instant of its `Set`; it changes no other name, and nothing where the name is not cached.
pub answer_at-update_ttl :
    (later : ℕ) (k j : String) (ttl : ℤ) (c : Cache)
    → answer_at later j (update_ttl k ttl c).0
      ≡ (if str_eq k j then retimed later ttl (lookup k c.entries) else answer_at later j c)
unfolding update_ttl has_expired
answer_at-update_ttl later k j ttl c =
    answer-fresh_of later j (update_ttl k ttl c).0 ∙ elim (Option-cases (lookup k c.entries)) [
      | inl e ↦ ground (arith, answer-fresh_of later j c, eq_iff k j)
      | inr (e, found) ↦ ground (
        arith,
        answer-fresh_of later j c,
        lookup-insert k j (record e { ttl = ttl }) c.entries,
        eq_iff k j,
      )
    ]
