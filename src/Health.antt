-- ===== src/Health.antt =====
-- What the health checks exchange: internal/health/composite/engine.go, `HealthResult`, and the
-- `error` values of its checks. Instants are nanoseconds since some epoch, durations signed.
use roost_keeper.Prelude.{ℕ, ℤ, Bool, sub_ℕ}
use roost_keeper.Roost.{Message}

-- an `error`, by its text
abbrev pub Error : Type 0
Error = Message

-- `HealthResult`; the text of the last error is empty where there was none
pub record HealthResult : Type 0 where
  pub healthy : Bool
  pub message : Message
  pub response_time : ℤ
  pub check_time : ℕ
  pub failure_count : ℤ
  pub last_error : Message

-- `now.Sub(t)`, and `time.Since(t)` at the instant `now`
abbrev pub since : ℕ → ℕ → ℤ
since now t = sub_ℕ now t
