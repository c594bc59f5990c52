-- ===== src/ConnectionPool.antt =====
-- One pool of internal/performance/connection_pool.go. A connection is an address in a store, for
-- the channel, the map of the active ones and the callers share it. A method takes the instant at
-- which it runs.
pub mod Exclusion
use roost_keeper.Prelude.{
  ◌&&◌, ◌∷◌, ◌++◌, ◌==◌, if◌then◌else◌, ℕ, ℤ, String, List, Bool, zero, suc, pos, negsuc, true,
  false, not, [], ltb, length, ltb_ℤ, inc, max_int64, insert, delete,
}
use roost_keeper.Health.{since}

-- `Connection`, without the resource
pub record Connection : Type 0 where
  pub id : String
  pub created_at : ℕ
  pub last_used : ℕ
  pub in_use : Bool
  pub healthy : Bool
  pub usage_count : ℤ

-- `Pool` with its `PoolStats`: `idle` is the channel, of `max_connections` places. The addresses
-- from `next` on are not used yet.
pub record Pool : Type 0 where
  pub max_connections : ℕ
  pub max_idle_time : ℤ
  pub store : ℕ → Connection
  pub next : ℕ
  pub idle : List ℕ
  pub active : List (String × ℕ)
  pub size : ℤ
  pub created : ℤ
  pub destroyed : ℤ
  pub hits : ℤ
  pub misses : ℤ
  pub healthy_count : ℕ
  pub unhealthy_count : ℕ

abbrev pub nothing : ℕ → Connection
nothing a = record {
  id = "";
  created_at = 0;
  last_used = 0;
  in_use = false;
  healthy = false;
  usage_count = pos 0;
}

-- `createPool`
unfoldable pub create_pool : ℕ → ℤ → Pool
create_pool max_connections max_idle_time = record {
  max_connections = max_connections;
  max_idle_time = max_idle_time;
  store = nothing;
  next = 0;
  idle = [];
  active = [];
  size = pos 0;
  created = pos 0;
  destroyed = pos 0;
  hits = pos 0;
  misses = pos 0;
  healthy_count = 0;
  unhealthy_count = 0;
}

-- `Size--`, which does not come to the least `int`
abbrev pub one_less : ℤ → ℤ
one_less (pos zero) = negsuc zero
one_less (pos (suc n)) = pos n
one_less (negsuc n) = negsuc (suc n)

abbrev pub stored : ℕ → Connection → Pool → Pool
stored a c p = record p { store = λ b. if b == a then c else p.store b }

-- `destroyConnection`; it asks nothing about the connection
unfoldable pub destroy_connection : ℕ → Pool → Pool
destroy_connection a p = record p {
  active = delete (p.store a).id p.active;
  destroyed = inc max_int64 p.destroyed;
  size = one_less p.size;
}

-- `createConnection`, with the identifier that `generateConnectionID` makes of the instant
unfoldable pub create_connection : String → ℕ → Pool → Pool
create_connection id now p =
    let c : Connection = record {
      id = id;
      created_at = now;
      last_used = now;
      in_use = true;
      healthy = true;
      usage_count = pos 1;
    } in
    record (stored p.next c p) {
      next = suc p.next;
      active = insert id p.next p.active;
      created = inc max_int64 p.created;
      size = inc max_int64 p.size;
    }

-- a connection of the channel that is healthy and has not been idle too long
abbrev pub is_fresh : ℕ → ℕ → Pool → Bool
is_fresh now a p = (p.store a).healthy && ltb_ℤ (since now (p.store a).last_used) p.max_idle_time

abbrev pub missed : String → ℕ → Pool → ℕ × Pool
missed id now p =
    let p' = create_connection id now p in (p.next, record p' { misses = inc max_int64 p'.misses })

abbrev pub reused : ℕ → ℕ → Pool → Pool
reused now a p =
    let c = p.store a in
    record (stored a
      (record c { in_use = true; last_used = now; usage_count = inc max_int64 c.usage_count }) p) {
        hits = inc max_int64 p.hits;
      }

abbrev pub taken_from : String → ℕ → List ℕ → Pool → ℕ × Pool
taken_from id now [] p = missed id now p
taken_from id now (a ∷ idle) p =
    let q = record p { idle = idle } in
    if is_fresh now a q then (a, reused now a q) else missed id now (destroy_connection a q)

-- `getConnection`: the address of the connection, and the pool
unfoldable pub get_connection : String → ℕ → Pool → ℕ × Pool
unfolding create_connection destroy_connection
get_connection id now p = taken_from id now p.idle p

-- `returnConnection`, of a connection that is not nil
unfoldable pub return_connection : ℕ → ℕ → Pool → Pool
unfolding destroy_connection
return_connection now a p =
    let c = p.store a in
    let q = stored a (record c { in_use = false; last_used = now }) p in
    if ltb (length q.idle) q.max_connections
    then record q { idle = q.idle ++ (a ∷ []) }
    else destroy_connection a q

-- `isConnectionHealthy`: thirty minutes are the greatest age
unfoldable pub is_connection_healthy : ℕ → Connection → Pool → Bool
is_connection_healthy now c p =
    if ltb_ℤ (pos 1_800_000_000_000) (since now c.created_at)
    then false
    else not (ltb_ℤ p.max_idle_time (since now c.last_used))

abbrev pub addresses : List (String × ℕ) → List ℕ
addresses [] = []
addresses ((id, a) ∷ rest) = a ∷ addresses rest

-- one connection in the loop of `healthCheck`
abbrev pub checked : ℕ → ℕ → Pool → Pool
checked now a p =
    let c = p.store a in
    let healthy = is_connection_healthy now c p in
    let q = stored a (record c { healthy = healthy }) p in
    if healthy then q else if not c.in_use then destroy_connection a q else q

-- the connections are those that the map has when the loop begins
abbrev pub check_all : ℕ → List ℕ → ℕ → ℕ → Pool → Pool
check_all now [] well ill p = record p { healthy_count = well; unhealthy_count = ill }
check_all now (a ∷ xs) well ill p =
    let healthy = is_connection_healthy now (p.store a) p in
    check_all now xs (if healthy then suc well else well) (if healthy then ill else suc ill)
      (checked now a p)

-- `healthCheck`
unfoldable pub health_check : ℕ → Pool → Pool
unfolding is_connection_healthy destroy_connection
health_check now p = check_all now (addresses p.active) 0 0 p

abbrev pub idle_too_long : ℕ → List ℕ → Pool → List ℕ
idle_too_long now [] p = []
idle_too_long now (a ∷ xs) p =
    let rest = idle_too_long now xs p in
    if not (p.store a).in_use && ltb_ℤ p.max_idle_time (since now (p.store a).last_used)
    then a ∷ rest
    else rest

abbrev pub destroy_all : List ℕ → Pool → Pool
destroy_all [] p = p
destroy_all (a ∷ xs) p = destroy_all xs (destroy_connection a p)

-- `cleanup`; the channel keeps the connections that it destroys
unfoldable pub cleanup : ℕ → Pool → Pool
unfolding destroy_connection
cleanup now p = destroy_all (idle_too_long now (addresses p.active) p) p
