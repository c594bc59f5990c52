-- ===== src/ResourceCache/Invariant.antt =====
-- What holds of the cache of resource_cache.go whatever calls reach it, and however they
-- interleave with a `Get` that gives up its lock.
use roost_keeper.Prelude.{
  ◌≤◌, ◌<◌, ◌≡◌, ◌∙◌, ◌∷◌, ℕ, ℤ, String, List, zero, suc, pos, negsuc, false, some, [], refl, sym,
  inl, inr, arith, Bool-cases, zero_or_more, Option-cases, length, length-insert-le,
  length-insert_self, length-delete-le, length-delete-lt, length-delete_all-le, leb_ℤ, lookup,
  Distinct, insert-Distinct, delete-Distinct, delete_all-Distinct, keys_where,
}
use roost_keeper.ResourceCache.{
  Value, Entry, Cache, new, get, get_among, drop_expired, set_with_ttl, delete_key, clear,
  cleanup_expired_entries, invalidate, made_room, evict_keys, evict_entries, keys_with_prefix,
  select_entries_for_eviction, touch, increment_evictions, update_cache_size, get_found,
  increment_hits, increment_total_requests, new_entry, sort_infos, first_keys, infos_of, is_expired,
  increment_misses,
}
use roost_keeper.ResourceCache.Eviction.{victim, made_room-entries, max_size-made_room}

-- how many entries a cache may hold: at least one, whatever its size is set to
abbrev pub capacity : ℤ → ℕ
capacity (pos (suc n)) = suc n
capacity n = 1

pub record IsValid (size : ℤ) (c : Cache) : Type 0 where
  pub distinct : Distinct c.entries
  pub bounded : length c.entries ≤ capacity size
  pub kept : c.max_size ≡ size

-- what runs under one lock
pub data Section : Type 0 where
  get_section : ℕ → String → Section
  drop_section : String → Section
  set_section : ℕ → String → Value → ℤ → Section
  delete_section : String → Section
  clear_section : Section
  cleanup_section : ℕ → Section
  invalidate_section : String → Section

unfoldable pub act : Section → Cache → Cache
act (get_section now key) c = (get now key c).0
act (drop_section key) c = drop_expired key c
act (set_section now key value ttl) c = set_with_ttl now key value ttl c
act (delete_section key) c = delete_key key c
act clear_section c = clear c
act (cleanup_section now) c = cleanup_expired_entries now c
act (invalidate_section prefix) c = (invalidate prefix c).0

unfoldable pub run : List Section → Cache → Cache
unfolding act
run [] c = c
run (s ∷ ss) c = run ss (act s c)

below_capacity : (m : ℤ) (n : ℕ) → leb_ℤ m (pos n) ≡ false → n < capacity m
below_capacity (pos zero) n h = ground arith
below_capacity (pos (suc m)) n h = ground arith
below_capacity (negsuc m) n h = ground arith

capacity_pos : (m : ℤ) → 0 < capacity m
capacity_pos (pos zero) = omega arith
capacity_pos (pos (suc m)) = omega arith
capacity_pos (negsuc m) = omega arith

module _ (size : ℤ) where
  -- fewer entries, each of them once
  shrunk :
      (c c' : Cache)
      → IsValid size c
      → Distinct c'.entries
      → length c'.entries ≤ length c.entries
      → c'.max_size ≡ c.max_size
      → IsValid size c'
  shrunk c c' v d h k = record {
    distinct = d;
    bounded = omega (arith, v.bounded);
    kept = k ∙ v.kept;
  }

  evict_keys-IsValid :
      (keys : List String) (c : Cache) → IsValid size c → IsValid size (evict_keys keys c)
  unfolding evict_keys increment_evictions
  evict_keys-IsValid [] c v = v
  evict_keys-IsValid (k ∷ ks) c v =
      evict_keys-IsValid ks _
        (shrunk c _ v (delete-Distinct k c.entries v.distinct) (length-delete-le k c.entries) refl)

  drop_expired-IsValid :
      (key : String) (c : Cache) → IsValid size c → IsValid size (drop_expired key c)
  unfolding drop_expired increment_evictions
  drop_expired-IsValid key c v =
      shrunk c _ v (delete-Distinct key c.entries v.distinct) (length-delete-le key c.entries) refl

  touch-IsValid :
      (now : ℕ) (key : String) (e : Entry) (c : Cache)
      → lookup key c.entries ≡ some e
      → IsValid size c
      → IsValid size (touch now key e c)
  unfolding touch increment_hits
  touch-IsValid now key e c found v =
      shrunk c _ v (insert-Distinct key _ c.entries v.distinct)
        (omega (arith, length-insert_self key _ {y = e} c.entries found)) refl

  -- what eviction leaves has room for one entry more
  record HasRoom (c : Cache) : Type 0 where
    pub distinct : Distinct c.entries
    pub room : length c.entries < capacity size
    pub kept : c.max_size ≡ size

  none_selected :
      (es : List (String × Entry)) → length es ≡ 0 → select_entries_for_eviction (pos 1) es ≡ []
  unfolding select_entries_for_eviction sort_infos first_keys infos_of
  none_selected [] h = refl
  none_selected (e ∷ es) h = absurd (omega (arith, h))

  emptied : (c : Cache) → IsValid size c → length c.entries ≡ 0 → HasRoom (made_room c)
  unfolding evict_entries evict_keys
  emptied c v none_left =
      rw (none_selected c.entries none_left)
        (ground (arith, none_left, capacity_pos size, v.distinct, v.kept))

  made_room-HasRoom : (c : Cache) → IsValid size c → HasRoom (made_room c)
  made_room-HasRoom c v = elim (Bool-cases (leb_ℤ c.max_size (pos (length c.entries)))) [
    | inl full ↦ elim (zero_or_more (length c.entries)) [
      | inl empty ↦ emptied c v empty
      | inr more ↦
          let w = victim c.entries v.distinct more in
          record {
            distinct = rw (made_room-entries c w full) (delete-Distinct w.key c.entries v.distinct);
            room =
                rw (made_room-entries c w full)
                  (omega (arith, length-delete-lt w.key w.entry c.entries w.found, v.bounded));
            kept = max_size-made_room c w ∙ v.kept;
          }
    ]
    | inr room ↦ rw room (record {
      distinct = v.distinct;
      room = rw (sym v.kept) (below_capacity c.max_size (length c.entries) room);
      kept = v.kept;
    })
  ]

  set_with_ttl-IsValid :
      (now : ℕ) (key : String) (value : Value) (ttl : ℤ) (c : Cache)
      → IsValid size c
      → IsValid size (set_with_ttl now key value ttl c)
  unfolding set_with_ttl update_cache_size
  set_with_ttl-IsValid now key value ttl c v =
      let r = made_room-HasRoom c v in
      record {
        distinct = insert-Distinct key _ (made_room c).entries r.distinct;
        bounded = omega (
          arith,
          length-insert-le key (new_entry now key value ttl) (made_room c).entries,
          r.room,
        );
        kept = r.kept;
      }

  delete_key-IsValid : (key : String) (c : Cache) → IsValid size c → IsValid size (delete_key key c)
  unfolding delete_key update_cache_size
  delete_key-IsValid key c v = elim (Option-cases (lookup key c.entries)) [
    | inl e ↦ rw e v
    | inr (x, e) ↦ rw e (
        shrunk c _ v (delete-Distinct key c.entries v.distinct) (length-delete-le key c.entries)
          refl)
  ]

  cleanup-IsValid :
      (now : ℕ) (c : Cache) → IsValid size c → IsValid size (cleanup_expired_entries now c)
  unfolding cleanup_expired_entries update_cache_size
  cleanup-IsValid now c v =
      grind (arith, evict_keys-IsValid (keys_where (is_expired now) c.entries) c v)

  invalidate-IsValid :
      (prefix : String) (c : Cache) → IsValid size c → IsValid size (invalidate prefix c).0
  unfolding invalidate update_cache_size
  invalidate-IsValid prefix c v =
      let found = keys_with_prefix prefix c.entries in
      grind (
        arith,
        delete_all-Distinct found c.entries v.distinct,
        length-delete_all-le found c.entries,
      )

  -- a `Get`, if what runs while it holds no lock keeps the invariant
  get_among-IsValid :
      (now : ℕ) (key : String) (between after : Cache → Cache)
      → ((c : Cache) → IsValid size c → IsValid size (between c))
      → ((c : Cache) → IsValid size c → IsValid size (after c))
      → (c : Cache) → IsValid size c
      → IsValid size (get_among now key between after c).0
  unfolding get_among get_found increment_misses increment_total_requests
  get_among-IsValid now key between after keep keep' c v =
      elim (Option-cases (lookup key c.entries)) [
        | inl absent ↦ rw absent (shrunk c _ v v.distinct (omega arith) refl)
        | inr (e, found) ↦ rw found (elim (Bool-cases (is_expired now e)) [
          | inl late ↦
              let asked = shrunk c (increment_total_requests c) v v.distinct (omega arith) refl in
              let dropped = keep' _ (drop_expired-IsValid key _ (keep _ asked)) in
              rw late (shrunk _ _ dropped dropped.distinct (omega arith) refl)
          | inr fresh ↦
              rw fresh
                (touch-IsValid now key e _ found (shrunk c _ v v.distinct (omega arith) refl))
        ])
      ]

  act-IsValid : (s : Section) (c : Cache) → IsValid size c → IsValid size (act s c)
  unfolding act get clear update_cache_size
  act-IsValid (get_section now key) c v =
      get_among-IsValid now key _ _ (λ c' v'. v') (λ c' v'. v') c v
  act-IsValid (drop_section key) c v = drop_expired-IsValid key c v
  act-IsValid (set_section now key value ttl) c v = set_with_ttl-IsValid now key value ttl c v
  act-IsValid (delete_section key) c v = delete_key-IsValid key c v
  act-IsValid clear_section c v = record { distinct = tt; bounded = omega arith; kept = v.kept }
  act-IsValid (cleanup_section now) c v = cleanup-IsValid now c v
  act-IsValid (invalidate_section prefix) c v = invalidate-IsValid prefix c v

  run-IsValid : (ss : List Section) (c : Cache) → IsValid size c → IsValid size (run ss c)
  unfolding run
  run-IsValid [] c v = v
  run-IsValid (s ∷ ss) c v = run-IsValid ss (act s c) (act-IsValid s c v)

-- Whatever sections run on a new cache, and whatever other sections run while a last `Get` holds
-- no lock, it holds every key at most once, and no more entries than its size says, or one where
-- its size is not positive.
pub get_among-new-IsValid :
    (size ttl : ℤ) (ss between after : List Section) (now : ℕ) (key : String)
    → IsValid size (get_among now key (run between) (run after) (run ss (new size ttl))).0
unfolding new
get_among-new-IsValid size ttl ss between after now key =
    get_among-IsValid size now key (run between) (run after) (run-IsValid size between)
      (run-IsValid size after) _
      (run-IsValid size ss _ (record { distinct = tt; bounded = omega arith; kept = refl }))
