-- ===== src/Tests/Caches.antt =====
-- The cache of internal/performance/resource_cache.go on concrete values.
use roost_keeper.Prelude.{
  ◌≤◌, ◌≡◌, ◌∷◌, if◌then◌else◌, String, List, pos, none, some, [], refl, arith, str_eq, lookup,
  insert, delete,
}
use roost_keeper.ResourceCache.{
  text_value, other_value, Entry, Cache, new, get, get_among, set, set_with_ttl, new_entry,
  invalidate, get_keys, is_expired,
}
use roost_keeper.ResourceCache.Eviction.{set_with_ttl-full}
use roost_keeper.ResourceCache.Invariant.{
  Section, get_section, set_section, cleanup_section, run, IsValid, get_among-new-IsValid,
}
use roost_keeper.ResourceCache.Counts.{Counted, run-new-Counted, lookup-get_among}

-- two entries: "pods" was read last
abbrev pods_and_nodes : Cache
pods_and_nodes =
    (get 9 "pods"
      (set 5 "nodes" (text_value "n") (set 1 "pods" (other_value 7) (new (pos 2) (pos 100))))).0

abbrev sections : List Section
sections =
    set_section 1 "pods" (other_value 7) (pos 10)
    ∷ get_section 2 "pods"
    ∷ set_section 3 "nodes" (text_value "n") (pos 10)
    ∷ get_section 4 "services"
    ∷ cleanup_section 12
    ∷ []

evicts_nodes :
    get_keys (set 10 "services" (other_value 1) pods_and_nodes) ≡ "pods" ∷ "services" ∷ []
unfolding get_keys set get insert lookup new delete
evicts_nodes = refl

-- a write of a key that is there evicts another entry all the same
overwrite_evicts : get_keys (set 10 "pods" (other_value 1) pods_and_nodes) ≡ "pods" ∷ []
unfolding get_keys set get insert lookup new delete
overwrite_evicts = refl

invalidates_prefix : (invalidate "po" pods_and_nodes).1 ≡ 1
unfolding invalidate set get lookup insert new
invalidates_prefix = refl

set_with_ttl-full_example :
    (victim : String) × (old : Entry) × (lookup victim pods_and_nodes.entries ≡ some old)
    × ((j : String) (e : Entry)
        → lookup j pods_and_nodes.entries ≡ some e
        → old.last_access ≤ e.last_access)
    × ((j : String)
        → lookup j (set_with_ttl 10 "pods" (other_value 1) (pos 100) pods_and_nodes).entries ≡ (
            if str_eq "pods" j
            then some (new_entry 10 "pods" (other_value 1) (pos 100))
            else if str_eq victim j
            then none
            else lookup j pods_and_nodes.entries))
unfolding set get lookup insert new
set_with_ttl-full_example =
    set_with_ttl-full 10 "pods" (other_value 1) (pos 100) pods_and_nodes (refl, (refl, tt))
      (omega arith) refl

get_among-new-IsValid_example :
    IsValid
      (pos 1)
      (get_among 20 "nodes"
        (run (set_section 20 "nodes" (other_value 2) (pos 9) ∷ []))
        (run [])
        (run sections (new (pos 1) (pos 5)))).0
get_among-new-IsValid_example =
    get_among-new-IsValid (pos 1) (pos 5) sections
      (set_section 20 "nodes" (other_value 2) (pos 9) ∷ []) [] 20 "nodes"

run-new-Counted_example : Counted 2 (run sections (new (pos 2) (pos 5)))
run-new-Counted_example = run-new-Counted (pos 2) (pos 5) sections (omega arith)

abbrev stale : Cache
stale = set 1 "pods" (other_value 7) (new (pos 2) (pos 10))

lookup-get_among_example :
    lookup "pods" (get_among 50 "pods" (set 50 "pods" (other_value 8)) (λ c. c) stale).0.entries
    ≡ none
unfolding set is_expired lookup insert new
lookup-get_among_example =
    lookup-get_among 50 "pods" (set 50 "pods" (other_value 8)) stale
      (new_entry 1 "pods" (other_value 7) (pos 10)) refl refl
