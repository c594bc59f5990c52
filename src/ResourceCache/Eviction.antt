-- ===== src/ResourceCache/Eviction.antt =====
-- Which entry `SetWithTTL` of resource_cache.go evicts from a full cache.
use roost_keeper.Prelude.{
  ◌≤◌, ◌<◌, ◌≡◌, ◌∷◌, if◌then◌else◌, ℕ, ℤ, String, List, pos, true, none, some, [], refl, inl, inr,
  arith, eq_iff, ltb, str_eq, ltb→lt, tests, Bool-cases, length, All-map, All, leb_ℤ, lookup,
  delete, lookup-insert, lookup-delete, Distinct,
}
use roost_keeper.ResourceCache.{
  Value, Entry, Info, Cache, infos_of, exchange, sort_infos, select_entries_for_eviction,
  set_with_ttl, evict_entries, made_room, new_entry, evict_keys, first_keys, increment_evictions,
  update_cache_size,
}

-- the inner loop leaves one of its infos in front
exchange_pick {κ} :
    (P : Info → Type κ) (x : Info) (ys : List Info) → P x → All P ys → P (exchange x ys).0
unfolding exchange
exchange_pick P x [] p ps = p
exchange_pick P x (y ∷ ys) p ps = elim (Bool-cases (ltb y.1 x.1)) [
  | inl e ↦ rw e (exchange_pick P y ys ps.0 ps.1)
  | inr e ↦ rw e (exchange_pick P x ys p ps.1)
]

-- and none of the others was read before it
exchange_least :
    (m : ℕ) (x : Info) (ys : List Info)
    → m ≤ (exchange x ys).0.1
    → (m ≤ x.1) × All (λ (y : Info). m ≤ y.1) ys
unfolding exchange
exchange_least m x [] h = (h, tt)
exchange_least m x (y ∷ ys) h = elim (Bool-cases (ltb y.1 x.1)) [
  | inl e ↦
      let (above, rest) = exchange_least m y ys (rw e at h) in
      (omega (tests, ltb→lt y.1 x.1 e), (above, rest))
  | inr e ↦ let (above, rest) = exchange_least m x ys (rw e at h) in (above, (ground arith, rest))
]

-- an info tells of an entry of the cache
abbrev Shows : List (String × Entry) → Info → Type 0
Shows es i = (e : Entry) × (lookup i.0 es ≡ some e) × (e.last_access ≡ i.1)

Shows-cons :
    (k : String) (x : Entry) (es : List (String × Entry))
    → lookup k es ≡ none
    → (i : Info) → Shows es i
    → Shows ((k, x) ∷ es) i
unfolding lookup
Shows-cons k x es absent i (e, found, l) = (e, ground (arith, eq_iff k i.0), l)

infos-Shows : (es : List (String × Entry)) → Distinct es → All (Shows es) (infos_of es)
unfolding infos_of lookup
infos-Shows [] d = tt
infos-Shows ((k, x) ∷ es) d = (
  (x, ground (arith, eq_iff k k), refl),
  All-map (Shows-cons k x es d.0) (infos_of es) (infos-Shows es d.1),
)

infos_bound :
    (m : ℕ) (j : String) (e : Entry) (es : List (String × Entry))
    → All (λ (i : Info). m ≤ i.1) (infos_of es)
    → lookup j es ≡ some e
    → m ≤ e.last_access
unfolding infos_of lookup
infos_bound m j e [] h l = absurd (cc)
infos_bound m j e ((k, x) ∷ es) h l = ground (arith, infos_bound m j e es)

-- the info of the entry that was read first
oldest : String × Entry → List (String × Entry) → Info
oldest (k, x) es = (exchange (k, x.last_access) (infos_of es)).0

select_one :
    (k : String) (x : Entry) (es : List (String × Entry))
    → select_entries_for_eviction (pos 1) ((k, x) ∷ es) ≡ (oldest (k, x) es).0 ∷ []
unfolding select_entries_for_eviction sort_infos first_keys infos_of oldest
select_one k x es = refl

-- the key that a full cache evicts, with its entry
pub record Victim (es : List (String × Entry)) : Type 0 where
  pub key : String
  pub entry : Entry
  pub found : lookup key es ≡ some entry
  pub selected : select_entries_for_eviction (pos 1) es ≡ key ∷ []
  pub least_recent :
      (j : String) (e : Entry) → lookup j es ≡ some e → entry.last_access ≤ e.last_access

pub victim : (es : List (String × Entry)) → Distinct es → 0 < length es → Victim es
unfolding oldest infos_of
victim [] d h = absurd (omega arith)
victim ((k, x) ∷ es) d h =
    let (shown, rest) = infos-Shows ((k, x) ∷ es) d in
    let (e, found, l) =
      exchange_pick (Shows ((k, x) ∷ es)) (k, x.last_access) (infos_of es) shown rest in
    record {
      key = (oldest (k, x) es).0;
      entry = e;
      found = found;
      selected = select_one k x es;
      least_recent = λ j f has.
          infos_bound e.last_access j f ((k, x) ∷ es)
            (exchange_least e.last_access (k, x.last_access) (infos_of es) (omega (arith, l))) has;
    }

pub made_room-entries :
    (c : Cache) (v : Victim c.entries)
    → leb_ℤ c.max_size (pos (length c.entries)) ≡ true
    → (made_room c).entries ≡ delete v.key c.entries
unfolding evict_entries evict_keys increment_evictions
made_room-entries c v full = rw (full, v.selected)

pub max_size-made_room : (c : Cache) (v : Victim c.entries) → (made_room c).max_size ≡ c.max_size
unfolding evict_entries evict_keys increment_evictions
max_size-made_room c v = rw v.selected (ground arith)

-- `SetWithTTL` in a full cache drops one entry that no other was read before, whether or not the
-- key that is set was in the cache. It stores the new entry, and leaves every other one.
pub set_with_ttl-full :
    (now : ℕ) (key : String) (value : Value) (ttl : ℤ) (c : Cache)
    → Distinct c.entries
    → 0 < length c.entries
    → leb_ℤ c.max_size (pos (length c.entries)) ≡ true
    → (victim : String) × (old : Entry) × (lookup victim c.entries ≡ some old)
      × ((j : String) (e : Entry) → lookup j c.entries ≡ some e → old.last_access ≤ e.last_access)
      × ((j : String)
          → lookup j (set_with_ttl now key value ttl c).entries ≡ (
              if str_eq key j
              then some (new_entry now key value ttl)
              else if str_eq victim j
              then none
              else lookup j c.entries))
unfolding set_with_ttl update_cache_size
set_with_ttl-full now key value ttl c d some_entry full =
    let v = victim c.entries d some_entry in
    (
      v.key,
      v.entry,
      v.found,
      v.least_recent,
      λ j. rw (made_room-entries c v full, lookup-insert, lookup-delete),
    )
