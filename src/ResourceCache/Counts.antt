-- ===== src/ResourceCache/Counts.antt =====
-- The counters of the cache of resource_cache.go, and what a `Get` loses while it holds no lock.
use native.Mathlib.Nat.{add-zero, zero-add}
use roost_keeper.Roost.{ok}
use roost_keeper.Health.{since}
use roost_keeper.Prelude.{
  ◌+◌, ◌≤◌, ◌<◌, ◌≡◌, ◌∙◌, ◌∷◌, if◌then◌else◌, ℕ, ℤ, String, List, Option, suc, pos, true, none,
  some, [], refl, inl, inr, arith, eq_iff, Bool-cases, ltb_ℤ, max_int64, inc-pos, lookup, delete,
  lookup-insert, lookup-delete,
}
use roost_keeper.ResourceCache.{
  Value, Entry, Cache, new, get, get_among, get_found, drop_expired, set_with_ttl, delete_key,
  clear, cleanup_expired_entries, invalidate, evict_keys, evict_entries, touch, increment_evictions,
  get_or_set_with_ttl, got_or_computed, increment_hits, increment_misses, increment_total_requests,
  update_cache_size, is_expired,
}
use roost_keeper.ResourceCache.Invariant.{
  Section, get_section, drop_section, set_section, delete_section, clear_section, cleanup_section,
  invalidate_section, act, run,
}

-- the `Get` calls among the sections
abbrev pub gets : List Section → ℕ
gets [] = 0
gets (get_section now key ∷ ss) = suc (gets ss)
gets (s ∷ ss) = gets ss

-- so many calls of `Get` ended, and each counted as a hit or a miss
pub record Counted (n : ℕ) (c : Cache) : Type 0 where
  pub found : ℕ
  pub missed : ℕ
  pub requests : c.stats.total_requests ≡ pos n
  pub hits : c.stats.hits ≡ pos found
  pub misses : c.stats.misses ≡ pos missed
  pub sum : found + missed ≡ n

-- sections that count no request
record SameCounts (c c' : Cache) : Type 0 where
  pub requests : c'.stats.total_requests ≡ c.stats.total_requests
  pub hits : c'.stats.hits ≡ c.stats.hits
  pub misses : c'.stats.misses ≡ c.stats.misses

evict_keys-SameCounts : (keys : List String) (c : Cache) → SameCounts c (evict_keys keys c)
unfolding evict_keys increment_evictions
evict_keys-SameCounts [] c = record { requests = refl; hits = refl; misses = refl }
evict_keys-SameCounts (k ∷ ks) c =
    let r =
      evict_keys-SameCounts ks (increment_evictions (record c { entries = delete k c.entries })) in
    record { requests = r.requests; hits = r.hits; misses = r.misses }

set_with_ttl-SameCounts :
    (now : ℕ) (key : String) (value : Value) (ttl : ℤ) (c : Cache)
    → SameCounts c (set_with_ttl now key value ttl c)
unfolding set_with_ttl evict_entries update_cache_size
set_with_ttl-SameCounts now key value ttl c = grind (arith, evict_keys-SameCounts)

other-SameCounts :
    (s : Section) (c : Cache) (ss : List Section) → gets (s ∷ ss) ≡ gets ss → SameCounts c (act s c)
unfolding act drop_expired increment_evictions delete_key clear cleanup_expired_entries invalidate
    update_cache_size
other-SameCounts (get_section now key) c ss h = absurd (omega (arith, h))
other-SameCounts (drop_section key) c ss h = record { requests = refl; hits = refl; misses = refl }
other-SameCounts (set_section now key value ttl) c ss h =
    set_with_ttl-SameCounts now key value ttl c
other-SameCounts (delete_section key) c ss h = ground arith
other-SameCounts clear_section c ss h = record { requests = refl; hits = refl; misses = refl }
other-SameCounts (cleanup_section now) c ss h = grind (arith, evict_keys-SameCounts)
other-SameCounts (invalidate_section prefix) c ss h = ground arith

found-Counted :
    (now : ℕ) (key : String) (n : ℕ) (c : Cache) (o : Option Entry)
    → n < max_int64
    → Counted n c
    → Counted (suc n) (get_found now key (λ c'. c') (λ c'. c') (increment_total_requests c) o).0
unfolding get_found increment_total_requests increment_misses drop_expired increment_evictions touch
    increment_hits
found-Counted now key n c none small v = record {
  found = v.found;
  missed = suc v.missed;
  requests = rw v.requests (inc-pos _ _ small);
  hits = v.hits;
  misses = rw v.misses (inc-pos _ _ (omega (arith, v.sum)));
  sum = omega (arith, v.sum);
}
found-Counted now key n c (some e) small v = elim (Bool-cases (is_expired now e)) [
  | inl late ↦ rw late (record {
    found = v.found;
    missed = suc v.missed;
    requests = rw v.requests (inc-pos _ _ small);
    hits = v.hits;
    misses = rw v.misses (inc-pos _ _ (omega (arith, v.sum)));
    sum = omega (arith, v.sum);
  })
  | inr fresh ↦ rw fresh (record {
    found = suc v.found;
    missed = v.missed;
    requests = rw v.requests (inc-pos _ _ small);
    hits = rw v.hits (inc-pos _ _ (omega (arith, v.sum)));
    misses = v.misses;
    sum = omega (arith, v.sum);
  })
]

kept-Counted : (n : ℕ) (c c' : Cache) → SameCounts c c' → Counted n c → Counted n c'
kept-Counted n c c' same v = record {
  found = v.found;
  missed = v.missed;
  requests = same.requests ∙ v.requests;
  hits = same.hits ∙ v.hits;
  misses = same.misses ∙ v.misses;
  sum = v.sum;
}

add_suc_left : (n m : ℕ) → n + suc m ≡ suc n + m
add_suc_left n m = omega arith

run-Counted :
    (ss : List Section) (n : ℕ) (c : Cache)
    → n + gets ss ≤ max_int64
    → Counted n c
    → Counted (n + gets ss) (run ss c)
unfolding run act get get_among
run-Counted [] n c h v = rw (add-zero n) v
run-Counted (get_section now key ∷ ss) n c h v = rw (add_suc_left n (gets ss)) (
    run-Counted ss (suc n) _ (omega (arith, h))
      (found-Counted now key n c (lookup key c.entries) (omega (arith, h)) v))
run-Counted (drop_section key ∷ ss) n c h v =
    run-Counted ss n _ h (kept-Counted n c _ (other-SameCounts (drop_section key) c ss refl) v)
run-Counted (set_section now key value ttl ∷ ss) n c h v =
    run-Counted ss n _ h
      (kept-Counted n c _ (other-SameCounts (set_section now key value ttl) c ss refl) v)
run-Counted (delete_section key ∷ ss) n c h v =
    run-Counted ss n _ h (kept-Counted n c _ (other-SameCounts (delete_section key) c ss refl) v)
run-Counted (clear_section ∷ ss) n c h v =
    run-Counted ss n _ h (kept-Counted n c _ (other-SameCounts clear_section c ss refl) v)
run-Counted (cleanup_section now ∷ ss) n c h v =
    run-Counted ss n _ h (kept-Counted n c _ (other-SameCounts (cleanup_section now) c ss refl) v)
run-Counted (invalidate_section prefix ∷ ss) n c h v =
    run-Counted ss n _ h
      (kept-Counted n c _ (other-SameCounts (invalidate_section prefix) c ss refl) v)

-- A new cache that has run whole calls, at most 2⁶³ - 1 of them calls of `Get`, counts each `Get`
-- as a request, and as a hit or a miss.
pub run-new-Counted :
    (size ttl : ℤ) (ss : List Section)
    → gets ss ≤ max_int64
    → Counted (gets ss) (run ss (new size ttl))
unfolding new
run-new-Counted size ttl ss h = rw (← zero-add (gets ss)) (
    run-Counted ss 0 _ (omega (arith, h))
      (record { found = 0; missed = 0; requests = refl; hits = refl; misses = refl; sum = refl }))

-- A `Get` that finds its key expired drops the key, whatever was set under it between the release
-- of the read lock and the taking of the write lock.
pub lookup-get_among :
    (now : ℕ) (key : String) (between : Cache → Cache) (c : Cache) (e : Entry)
    → lookup key c.entries ≡ some e
    → is_expired now e ≡ true
    → lookup key (get_among now key between (λ c'. c') c).0.entries ≡ none
unfolding get_among get_found increment_total_requests increment_misses drop_expired
    increment_evictions
lookup-get_among now key between c e found late =
    rw (found, late, lookup-delete) (ground (arith, eq_iff key key))

get-set_with_ttl :
    (later t : ℕ) (key : String) (value : Value) (ttl : ℤ) (c : Cache)
    → (get t key (set_with_ttl later key value ttl c)).1
      ≡ (if ltb_ℤ ttl (since t later) then none else some value)
unfolding get get_among get_found increment_total_requests set_with_ttl update_cache_size is_expired
get-set_with_ttl later t key value ttl c =
    rw lookup-insert (rw ((eq_iff key key).1 refl) (ground arith))

computed_on_miss :
    (later : ℕ) (key : String) (ttl : ℤ) (during : Cache → Cache) (value : Value)
    (got : Cache × Option Value)
    → got.1 ≡ none
    → (got_or_computed later key ttl during (ok value) got).0
      ≡ set_with_ttl later key value ttl (during got.0)
computed_on_miss later key ttl during value (c, none) h = refl
computed_on_miss later key ttl during value (c, some v) h = absurd (cc)

-- A value that `GetOrSetWithTTL` computes, where its `Get` answers nothing, is what a later `Get`
-- answers, for as long as the time to live says.
pub get-get_or_set_with_ttl :
    (now later t : ℕ) (key : String) (ttl : ℤ) (during : Cache → Cache) (value : Value) (c : Cache)
    → (get now key c).1 ≡ none
    → (get t key (get_or_set_with_ttl now later key ttl during (ok value) c).0).1
      ≡ (if ltb_ℤ ttl (since t later) then none else some value)
unfolding get_or_set_with_ttl
get-get_or_set_with_ttl now later t key ttl during value c miss =
    rw (computed_on_miss later key ttl during value (get now key c) miss)
      (get-set_with_ttl later t key value ttl (during (get now key c).0))
