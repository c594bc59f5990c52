-- ===== src/HealthCache/Invariant.antt =====
-- What holds of the cache of cache.go between two calls.
use roost_keeper.Prelude.{
  ◌∷◌, ℕ, ℤ, String, List, [], arith, Distinct, insert-Distinct, delete-Distinct,
  delete_all-Distinct, keys_where,
}
use roost_keeper.Health.{HealthResult}
use roost_keeper.HealthCache.{
  Cache, new, remove, clear, has_expired, remove_expired, get, set, remove, clear, perform_cleanup,
  update_ttl,
}

-- every name is cached at most once
pub record IsValid (c : Cache) : Type 0 where
  pub distinct : Distinct c.entries

-- a call that changes the cache, or a goroutine's turn
pub data Call : Type 0 where
  get_call : ℕ → String → Call
  set_call : ℕ → String → HealthResult → ℤ → Call
  remove_call : String → Call
  clear_call : Call
  remove_expired_call : ℕ → String → Call
  cleanup_call : ℕ → Call
  update_ttl_call : String → ℤ → Call

unfoldable pub run : List Call → Cache → Cache
run [] c = c
run (get_call now name ∷ calls) c = run calls (get now name c).cache
run (set_call now name r ttl ∷ calls) c = run calls (set now name r ttl c)
run (remove_call name ∷ calls) c = run calls (remove name c)
run (clear_call ∷ calls) c = run calls (clear c)
run (remove_expired_call now name ∷ calls) c = run calls (remove_expired now name c)
run (cleanup_call now ∷ calls) c = run calls (perform_cleanup now c)
run (update_ttl_call name ttl ∷ calls) c = run calls (update_ttl name ttl c).0

pub get-IsValid : (now : ℕ) (name : String) (c : Cache) → IsValid c → IsValid (get now name c).cache
unfolding get
get-IsValid now name c v = grind (arith, insert-Distinct)

pub set-IsValid :
    (now : ℕ) (name : String) (r : HealthResult) (ttl : ℤ) (c : Cache)
    → IsValid c
    → IsValid (set now name r ttl c)
unfolding set
set-IsValid now name r ttl c v = grind (arith, insert-Distinct)

remove_expired-IsValid :
    (now : ℕ) (name : String) (c : Cache) → IsValid c → IsValid (remove_expired now name c)
unfolding remove_expired
remove_expired-IsValid now name c v = grind (arith, delete-Distinct)

update_ttl-IsValid :
    (name : String) (ttl : ℤ) (c : Cache) → IsValid c → IsValid (update_ttl name ttl c).0
unfolding update_ttl
update_ttl-IsValid name ttl c v = grind (arith, insert-Distinct)

run-IsValid : (calls : List Call) (c : Cache) → IsValid c → IsValid (run calls c)
unfolding run remove clear perform_cleanup
run-IsValid [] c v = v
run-IsValid (get_call now name ∷ calls) c v = run-IsValid calls _ (get-IsValid now name c v)
run-IsValid (set_call now name r ttl ∷ calls) c v =
    run-IsValid calls _ (set-IsValid now name r ttl c v)
run-IsValid (remove_call name ∷ calls) c v =
    run-IsValid calls _ (record { distinct = delete-Distinct name c.entries v.distinct })
run-IsValid (clear_call ∷ calls) c v = run-IsValid calls _ (record { distinct = tt })
run-IsValid (remove_expired_call now name ∷ calls) c v =
    run-IsValid calls _ (remove_expired-IsValid now name c v)
run-IsValid (cleanup_call now ∷ calls) c v = run-IsValid calls _ (record {
  distinct = delete_all-Distinct (keys_where (has_expired now) c.entries) c.entries v.distinct;
})
run-IsValid (update_ttl_call name ttl ∷ calls) c v =
    run-IsValid calls _ (update_ttl-IsValid name ttl c v)

-- Whatever calls reach a new cache, it holds every name at most once.
pub run-new-IsValid : (calls : List Call) → IsValid (run calls new)
unfolding new
run-new-IsValid calls = run-IsValid calls _ (record { distinct = tt })
