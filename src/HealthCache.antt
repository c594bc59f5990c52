-- ===== src/HealthCache.antt =====
-- The cache of health check results: internal/health/composite/cache.go. A method takes the
-- instant at which it runs. `HitCount` is an `int64`, and a map is one order of its entries.
pub mod Invariant
pub mod Reads
use roost_keeper.Prelude.{
  ◌+ℤ◌, if◌then◌else◌, ℕ, ℤ, String, List, Option, Bool, pos, true, false, none, some, [], length,
  ltb_ℤ, inc, max_int64, lookup, insert, delete, delete_all, keys_where,
}
use roost_keeper.Health.{HealthResult, since}

-- `CacheEntry`
pub record Entry : Type 0 where
  pub result : HealthResult
  pub timestamp : ℕ
  pub ttl : ℤ
  pub hit_count : ℤ

pub record Cache : Type 0 where
  pub entries : List (String × Entry)

-- `NewCache`, without the goroutine that it starts
unfoldable pub new : Cache
new = record { entries = [] }

-- `time.Since(entry.Timestamp) > entry.TTL`
unfoldable pub has_expired : ℕ → Entry → Bool
has_expired now entry = ltb_ℤ entry.ttl (since now entry.timestamp)

-- `removeExpired`, the goroutine that a `Get` of an expired entry starts
abbrev remove_found : ℕ → String → Cache → Option Entry → Cache
remove_found now name c none = c
remove_found now name c (some entry) =
    if has_expired now entry then record { entries = delete name c.entries } else c

unfoldable pub remove_expired : ℕ → String → Cache → Cache
remove_expired now name c = remove_found now name c (lookup name c.entries)

-- what a `Get` leaves: the cache, the answer, and whether it started a goroutine `removeExpired`
pub record Got : Type 0 where
  pub cache : Cache
  pub answer : Option HealthResult
  pub starts_removal : Bool

abbrev get_found : ℕ → String → Cache → Option Entry → Got
get_found now name c none = record { cache = c; answer = none; starts_removal = false }
get_found now name c (some entry) =
    if has_expired now entry
    then record { cache = c; answer = none; starts_removal = true }
    else record {
      cache = record {
        entries =
            insert name (record entry { hit_count = inc max_int64 entry.hit_count }) c.entries;
      };
      answer = some entry.result;
      starts_removal = false;
    }

-- `Get`
unfoldable pub get : ℕ → String → Cache → Got
get now name c = get_found now name c (lookup name c.entries)

-- `Set`
unfoldable pub set : ℕ → String → HealthResult → ℤ → Cache → Cache
set now name result ttl c = record {
  entries =
      insert name (record { result = result; timestamp = now; ttl = ttl; hit_count = pos 0 })
        c.entries;
}

-- `Remove`
unfoldable pub remove : String → Cache → Cache
remove name c = record { entries = delete name c.entries }

-- `Clear`
unfoldable pub clear : Cache → Cache
clear c = record { entries = [] }

-- `CacheInfo`; its fields are zero values where nothing is cached
pub record CacheInfo : Type 0 where
  pub cached : Bool
  pub cache_time : Option ℕ
  pub ttl : ℤ
  pub hit_count : ℤ

abbrev info_of : Option Entry → CacheInfo
info_of none = record { cached = false; cache_time = none; ttl = pos 0; hit_count = pos 0 }
info_of (some entry) = record {
  cached = true;
  cache_time = some entry.timestamp;
  ttl = entry.ttl;
  hit_count = entry.hit_count;
}

-- `GetInfo`
unfoldable pub get_info : String → Cache → CacheInfo
get_info name c = info_of (lookup name c.entries)

-- `performCleanup`, a tick of the cleanup goroutine: the expired keys are collected, then deleted
unfoldable pub perform_cleanup : ℕ → Cache → Cache
perform_cleanup now c = record {
  entries = delete_all (keys_where (has_expired now) c.entries) c.entries;
}

abbrev is_expired_found : ℕ → Option Entry → Bool
is_expired_found now none = true
is_expired_found now (some entry) = has_expired now entry

-- `IsExpired`
unfoldable pub is_expired : ℕ → String → Cache → Bool
is_expired now name c = is_expired_found now (lookup name c.entries)

abbrev expiration_of : Option Entry → Option ℤ
expiration_of none = none
expiration_of (some entry) = some (pos entry.timestamp +ℤ entry.ttl)

-- `GetExpiration`
unfoldable pub get_expiration : String → Cache → Option ℤ
get_expiration name c = expiration_of (lookup name c.entries)

-- `GetSize`
unfoldable pub get_size : Cache → ℕ
get_size c = length c.entries

abbrev update_found : String → ℤ → Cache → Option Entry → Cache × Bool
update_found name ttl c none = (c, false)
update_found name ttl c (some entry) =
    (record { entries = insert name (record entry { ttl = ttl }) c.entries }, true)

-- `UpdateTTL`
unfoldable pub update_ttl : String → ℤ → Cache → Cache × Bool
update_ttl name ttl c = update_found name ttl c (lookup name c.entries)
