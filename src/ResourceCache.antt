-- ===== src/ResourceCache.antt =====
-- The cache of Kubernetes resources: internal/performance/resource_cache.go. A method takes the
-- instant at which it runs. The counters of `CacheStats` are `int64` values, and a map is one order
-- of its entries.
pub mod Eviction
pub mod Invariant
pub mod Counts
use Prim.Native.String.{len}
use text.Mathlib.Text.{starts_with}
use roost_keeper.Prelude.{
  ◌*◌, ◌∷◌, if◌then◌else◌, ℕ, ℤ, String, List, Option, Bool, zero, suc, pos, true, false, none,
  some, [], ltb, length, pos_part, ltb_ℤ, leb_ℤ, inc, max_int64, lookup, insert, delete, delete_all,
  keys_where, keys,
}
use roost_keeper.Roost.{Reply, ok, err}
use roost_keeper.Health.{since}

-- `interface{}` as far as `estimateSize` looks into it; a value of another type by a number
pub data Value : Type 0 where
  text_value : String → Value
  bytes_value : List ℕ → Value
  map_value : List (String × ℕ) → Value
  other_value : ℕ → Value

-- `CacheEntry`
pub record Entry : Type 0 where
  pub key : String
  pub value : Value
  pub timestamp : ℕ
  pub ttl : ℤ
  pub access_count : ℤ
  pub last_access : ℕ
  pub size : ℤ

-- `CacheStats`; the two rates are computed by `GetStats`
pub record Stats : Type 0 where
  pub size : ℕ
  pub max_size : ℤ
  pub total_requests : ℤ
  pub hits : ℤ
  pub misses : ℤ
  pub evictions : ℤ

-- `ResourceCache`, without the ticker and the context of its goroutine
pub record Cache : Type 0 where
  pub entries : List (String × Entry)
  pub stats : Stats
  pub max_size : ℤ
  pub default_ttl : ℤ

-- `NewResourceCache`
unfoldable pub new : ℤ → ℤ → Cache
new max_size default_ttl = record {
  entries = [];
  stats = record {
    size = 0;
    max_size = max_size;
    total_requests = pos 0;
    hits = pos 0;
    misses = pos 0;
    evictions = pos 0;
  };
  max_size = max_size;
  default_ttl = default_ttl;
}

-- `estimateSize`; the length of a text is that of its bytes
unfoldable pub estimate_size : Value → ℤ
estimate_size (text_value s) = pos (len s)
estimate_size (bytes_value bs) = pos (length bs)
estimate_size (map_value m) = pos (length m * 50)
estimate_size (other_value n) = pos 100

-- `incrementTotalRequests`
unfoldable pub increment_total_requests : Cache → Cache
increment_total_requests c = record c {
  stats = record (c.stats) { total_requests = inc max_int64 c.stats.total_requests };
}

-- `incrementHits`
unfoldable pub increment_hits : Cache → Cache
increment_hits c = record c { stats = record (c.stats) { hits = inc max_int64 c.stats.hits } }

-- `incrementMisses`
unfoldable pub increment_misses : Cache → Cache
increment_misses c = record c { stats = record (c.stats) { misses = inc max_int64 c.stats.misses } }

-- `incrementEvictions`
unfoldable pub increment_evictions : Cache → Cache
increment_evictions c = record c {
  stats = record (c.stats) { evictions = inc max_int64 c.stats.evictions };
}

-- `updateCacheSize`
unfoldable pub update_cache_size : Cache → Cache
update_cache_size c = record c { stats = record (c.stats) { size = length c.entries } }

-- `isExpired`, and the test of `cleanupExpiredEntries`
unfoldable pub is_expired : ℕ → Entry → Bool
is_expired now entry = ltb_ℤ entry.ttl (since now entry.timestamp)

-- the locked section in which `Get` drops an expired key
unfoldable pub drop_expired : String → Cache → Cache
unfolding increment_evictions
drop_expired key c = increment_evictions (record c { entries = delete key c.entries })

-- the entry that `Get` has found and answers
unfoldable pub touch : ℕ → String → Entry → Cache → Cache
unfolding increment_hits
touch now key entry c = increment_hits (record c {
  entries =
      insert key
        (record entry { access_count = inc max_int64 entry.access_count; last_access = now })
        c.entries;
})

-- `Get`, from the test whether the key is there: `between` and `after` are what other goroutines
-- do while it holds no lock, before it drops an expired key and after that
unfoldable pub get_found :
    ℕ → String → (Cache → Cache) → (Cache → Cache) → Cache → Option Entry → Cache × Option Value
unfolding increment_misses is_expired drop_expired touch
get_found now key between after c none = (increment_misses c, none)
get_found now key between after c (some entry) =
    if is_expired now entry
    then (increment_misses (after (drop_expired key (between c))), none)
    else (touch now key entry c, some entry.value)

unfoldable pub get_among :
    ℕ → String → (Cache → Cache) → (Cache → Cache) → Cache → Cache × Option Value
unfolding get_found increment_total_requests
get_among now key between after c =
    get_found now key between after (increment_total_requests c) (lookup key c.entries)

-- `Get` with no other call in between
unfoldable pub get : ℕ → String → Cache → Cache × Option Value
unfolding get_among
get now key c = get_among now key (λ c'. c') (λ c'. c') c

-- `entryInfo`
abbrev pub Info : Type 0
Info = String × ℕ

-- the infos of the entries, in the order of a `range`
unfoldable pub infos_of : List (String × Entry) → List Info
infos_of [] = []
infos_of ((key, entry) ∷ es) = (key, entry.last_access) ∷ infos_of es

-- the inner loop of the sort: `x` stands at `entries[i]`, and the list is what follows it
unfoldable pub exchange : Info → List Info → Info × List Info
exchange x [] = (x, [])
exchange x (y ∷ ys) =
    let later = ltb y.1 x.1 in
    let (least, rest) = exchange (if later then y else x) ys in
    (least, (if later then x else y) ∷ rest)

-- the outer loop, with a round for each entry
unfoldable pub sort_infos : ℕ → List Info → List Info
unfolding exchange
sort_infos zero xs = xs
sort_infos (suc rounds) [] = []
sort_infos (suc rounds) (x ∷ xs) =
    let (least, rest) = exchange x xs in least ∷ sort_infos rounds rest

-- the keys of the first infos
unfoldable pub first_keys : ℕ → List Info → List String
first_keys zero xs = []
first_keys (suc n) [] = []
first_keys (suc n) (x ∷ xs) = x.0 ∷ first_keys n xs

-- `selectEntriesForEviction`; a count that is not positive, and an empty cache, select nothing
unfoldable pub select_entries_for_eviction : ℤ → List (String × Entry) → List String
unfolding sort_infos first_keys infos_of
select_entries_for_eviction count es =
    first_keys (pos_part count) (sort_infos (length es) (infos_of es))

-- the loops that delete keys and count each as an eviction
unfoldable pub evict_keys : List String → Cache → Cache
unfolding increment_evictions
evict_keys [] c = c
evict_keys (key ∷ keys) c =
    evict_keys keys (increment_evictions (record c { entries = delete key c.entries }))

-- `evictEntries`
unfoldable pub evict_entries : ℤ → Cache → Cache
unfolding evict_keys select_entries_for_eviction
evict_entries count c = evict_keys (select_entries_for_eviction count c.entries) c

-- `SetWithTTL`
abbrev pub new_entry : ℕ → String → Value → ℤ → Entry
new_entry now key value ttl = record {
  key = key;
  value = value;
  timestamp = now;
  ttl = ttl;
  access_count = pos 1;
  last_access = now;
  size = estimate_size value;
}

abbrev pub made_room : Cache → Cache
made_room c = if leb_ℤ c.max_size (pos (length c.entries)) then evict_entries (pos 1) c else c

unfoldable pub set_with_ttl : ℕ → String → Value → ℤ → Cache → Cache
unfolding evict_entries update_cache_size
set_with_ttl now key value ttl c =
    let room = made_room c in
    update_cache_size
      (record room { entries = insert key (new_entry now key value ttl) room.entries })

-- `Set`
unfoldable pub set : ℕ → String → Value → Cache → Cache
unfolding set_with_ttl
set now key value c = set_with_ttl now key value c.default_ttl c

-- `Delete`
abbrev delete_found : String → Cache → Option Entry → Cache
delete_found key c none = c
delete_found key c (some entry) = update_cache_size (record c { entries = delete key c.entries })

unfoldable pub delete_key : String → Cache → Cache
unfolding update_cache_size
delete_key key c = delete_found key c (lookup key c.entries)

-- `Clear`
unfoldable pub clear : Cache → Cache
unfolding update_cache_size
clear c = update_cache_size (record c { entries = [] })

-- `GetKeys`
unfoldable pub get_keys : Cache → List String
get_keys c = keys c.entries

-- `GetSize`
unfoldable pub get_size : Cache → ℕ
get_size c = length c.entries

-- `len(keys) > 0`
abbrev some_keys : List String → Bool
some_keys [] = false
some_keys (k ∷ ks) = true

-- `cleanupExpiredEntries`, a tick of the cleanup goroutine
unfoldable pub cleanup_expired_entries : ℕ → Cache → Cache
unfolding evict_keys update_cache_size is_expired
cleanup_expired_entries now c =
    let expired = keys_where (is_expired now) c.entries in
    let swept = evict_keys expired c in if some_keys expired then update_cache_size swept else swept

-- the keys that begin with a prefix; a text is its bytes here
unfoldable pub keys_with_prefix : String → List (String × Entry) → List String
keys_with_prefix prefix [] = []
keys_with_prefix prefix ((key, entry) ∷ es) =
    let rest = keys_with_prefix prefix es in if starts_with key prefix then key ∷ rest else rest

-- `Invalidate`
unfoldable pub invalidate : String → Cache → Cache × ℕ
unfolding keys_with_prefix update_cache_size
invalidate prefix c =
    let found = keys_with_prefix prefix c.entries in
    let swept = record c { entries = delete_all found c.entries } in
    (if some_keys found then update_cache_size swept else swept, length found)

-- `GetOrSetWithTTL`: the value is computed with no lock held, and `during` is what other
-- goroutines do meanwhile
abbrev pub computed : ℕ → String → ℤ → Cache → Reply Value → Cache × Reply Value
computed later key ttl c (ok value) = (set_with_ttl later key value ttl c, ok value)
computed later key ttl c (err e) = (c, err e)

abbrev pub got_or_computed :
    ℕ → String → ℤ → (Cache → Cache) → Reply Value → Cache × Option Value → Cache × Reply Value
got_or_computed later key ttl during result (c, some value) = (c, ok value)
got_or_computed later key ttl during result (c, none) = computed later key ttl (during c) result

unfoldable pub get_or_set_with_ttl :
    ℕ → ℕ → String → ℤ → (Cache → Cache) → Reply Value → Cache → Cache × Reply Value
unfolding get set_with_ttl
get_or_set_with_ttl now later key ttl during result c =
    got_or_computed later key ttl during result (get now key c)

-- `GetOrSet`
unfoldable pub get_or_set :
    ℕ → ℕ → String → (Cache → Cache) → Reply Value → Cache → Cache × Reply Value
unfolding get_or_set_with_ttl
get_or_set now later key during result c =
    get_or_set_with_ttl now later key c.default_ttl during result c
