-- ===== src/Engine/Invariant.antt =====
-- What holds of the engine of internal/health/composite/engine.go between two evaluations.
use roost_keeper.Prelude.{
  ◌≡◌, ◌∙◌, ◌⊎◌, ℕ, String, List, pos, true, false, none, some, [], refl, sym, inl, inr, arith,
  eq_iff, str_eq, Bool-cases, Option-cases, inc, max_int64, lookup, lookup-insert,
}
use mathlib.Core.Path.{subst}
use roost_keeper.Roost.{HealthCheckSpec}
use roost_keeper.Health.{HealthResult}
use roost_keeper.Breaker.{Breaker, new, is_open}
use roost_keeper.Breaker.Invariant.{
  InRange, IsValid as IsValidBreaker, act_all, new-IsValid, record_result-IsValid,
  is_open_among-IsValid,
}
use roost_keeper.Breaker.Polling.{config-is_open}
use roost_keeper.Breaker.Refinement.{config-record_result}
use roost_keeper.HealthCache.{Cache, Entry, get, set}
use roost_keeper.HealthCache.Invariant.{IsValid as IsValidCache, get-IsValid, set-IsValid}
use roost_keeper.Engine.{
  Engine, Checked, answered, errored, default_config, get_or_create, get_cache_ttl, recorded,
  cached, set_breaker,
}

-- a valid breaker with the engine's configuration
pub record IsBreaker (name : String) (cb : Breaker) : Type 0 where
  pub valid : IsValidBreaker cb
  pub configured : cb.config ≡ default_config name

-- every breaker is valid and has the default configuration, no name is cached twice, and what is
-- cached is healthy
pub record IsValid (e : Engine) : Type 0 where
  pub breakers :
      (name : String) (cb : Breaker) → lookup name e.circuit_breakers ≡ some cb → IsBreaker name cb
  pub cached_once : IsValidCache e.cache
  pub cached_healthy :
      (name : String) (entry : Entry)
      → lookup name e.cache.entries ≡ some entry
      → entry.result.healthy ≡ true

default_config-InRange : (name : String) → InRange (default_config name)
default_config-InRange name = record { failure_fits = omega arith; success_fits = omega arith }

get_or_create-cases :
    (now : ℕ) (name : String) (breakers : List (String × Breaker))
    → (get_or_create now name breakers ≡ new now (default_config name))
      ⊎ (lookup name breakers ≡ some (get_or_create now name breakers))
unfolding get_or_create
get_or_create-cases now name breakers = ground arith

pub get_or_create-IsBreaker :
    (now : ℕ) (name : String) (e : Engine)
    → IsValid e
    → IsBreaker name (get_or_create now name e.circuit_breakers)
unfolding new
get_or_create-IsBreaker now name e v = elim (get_or_create-cases now name e.circuit_breakers) [
  | inl fresh ↦
      subst (IsBreaker name) (sym fresh)
        (record { valid = new-IsValid now (default_config-InRange name); configured = refl })
  | inr there ↦ v.breakers name (get_or_create now name e.circuit_breakers) there
]

pub is_open-IsBreaker :
    (now : ℕ) (name : String) (cb : Breaker) → IsBreaker name cb → IsBreaker name (is_open now cb).0
unfolding is_open act_all
is_open-IsBreaker now name cb v = record {
  valid = is_open_among-IsValid [] [] now now cb v.valid;
  configured = config-is_open now cb ∙ v.configured;
}

pub recorded-IsBreaker :
    (finish : ℕ) (name : String) (c : Checked) (cb : Breaker)
    → IsBreaker name cb
    → IsBreaker name (recorded finish c cb)
recorded-IsBreaker finish name (answered r) cb v = record {
  valid = record_result-IsValid finish (some r) none cb v.valid;
  configured = config-record_result finish (some r) none cb ∙ v.configured;
}
recorded-IsBreaker finish name (errored r x) cb v = record {
  valid = record_result-IsValid finish r (some x) cb v.valid;
  configured = config-record_result finish r (some x) cb ∙ v.configured;
}

pub set_breaker-IsValid :
    (name : String) (cb : Breaker) (e : Engine)
    → IsBreaker name cb
    → IsValid e
    → IsValid (set_breaker name cb e)
set_breaker-IsValid name cb e b v = record {
  breakers = λ j cb' h. elim (Bool-cases (str_eq name j)) [
    | inl same ↦
        let there : cb ≡ cb' = ground (arith, lookup-insert name j cb e.circuit_breakers) in
        subst (IsBreaker j) there (subst (λ n. IsBreaker n cb) ((eq_iff name j).0 same) b)
    | inr other ↦ v.breakers j cb' (ground (arith, lookup-insert name j cb e.circuit_breakers))
  ];
  cached_once = v.cached_once;
  cached_healthy = v.cached_healthy;
}

pub got-IsValid :
    (now : ℕ) (name : String) (e : Engine)
    → IsValid e
    → IsValid (record e { cache = (get now name e.cache).cache })
unfolding get
got-IsValid now name e v = record {
  breakers = v.breakers;
  cached_once = get-IsValid now name e.cache v.cached_once;
  cached_healthy = λ j entry h. elim (Option-cases (lookup name e.cache.entries)) [
    | inl missing ↦ ground (arith, v.cached_healthy j entry)
    | inr (old, there) ↦ ground (
      arith,
      lookup-insert name j (record old { hit_count = inc max_int64 old.hit_count }) e.cache.entries,
      v.cached_healthy name old,
      v.cached_healthy j entry,
    )
  ];
}

stored_result :
    (finish : ℕ) (check : HealthCheckSpec) (r : HealthResult) (c : Cache)
    → r.healthy ≡ true
    → set finish check.name r (get_cache_ttl check) c ≡ cached finish check (answered r) c
stored_result finish check r c h = ground arith

dropped_result :
    (finish : ℕ) (check : HealthCheckSpec) (r : HealthResult) (c : Cache)
    → r.healthy ≡ false
    → c ≡ cached finish check (answered r) c
dropped_result finish check r c h = ground arith

pub cached-IsValid :
    (finish : ℕ) (check : HealthCheckSpec) (c : Checked) (e : Engine)
    → IsValid e
    → IsValid (record e { cache = cached finish check c e.cache })
unfolding set
cached-IsValid finish check (errored r x) e v = v
cached-IsValid finish check (answered r) e v = elim (Bool-cases r.healthy) [
  | inl healthy ↦
      let stored : Engine = record e {
        cache = set finish check.name r (get_cache_ttl check) e.cache;
      } in
      let kept : IsValid stored = record {
        breakers = v.breakers;
        cached_once = set-IsValid finish check.name r (get_cache_ttl check) e.cache v.cached_once;
        cached_healthy = λ j entry h. ground (
          arith,
          healthy,
          v.cached_healthy j entry,
          lookup-insert check.name j
              (record {
                result = r;
                timestamp = finish;
                ttl = get_cache_ttl check;
                hit_count = pos 0;
              })
              e.cache.entries,
        );
      } in
      subst (λ c. IsValid (record e { cache = c })) (stored_result finish check r e.cache healthy)
        kept
  | inr unhealthy ↦
      subst (λ c. IsValid (record e { cache = c }))
        (dropped_result finish check r e.cache unhealthy) v
]
