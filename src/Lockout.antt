-- ===== src/Lockout.antt =====
-- packages/core/src/core/engine/rate_limiter.py: the per-account failure counter and its lockout.
-- Each method takes the reading of `time.monotonic()` that it makes, in microseconds (`second` of
-- them make a second). A raise hands back its `retry_after_seconds` beside the state.
mod Records
mod Refusals
mod Runs
mod Tests
use venya.Prelude.{
  second, ℕ, ◌+◌, ◌-◌, ◌*◌, ◌/◌, String, Bool, ◌&&◌, ◌||◌, Option, none, some, ltb, leb,
  if◌then◌else◌,
}
use venya.Prelude.Dict
use venya.Prelude.Dict.{Dict}

pub record FailureRecord : Type 0 where
  pub user_id : String
  pub failed_attempts : ℕ
  pub window_start : ℕ
  pub locked_at : ℕ

pub record RateLimiter : Type 0 where
  pub max_attempts : ℕ
  pub window_seconds : ℕ
  pub lockout_reinstate_minutes : ℕ
  pub failures : Dict FailureRecord

pub data ConfigError : Type 0 where
  max_attempts_too_small window_too_small : ConfigError

pub data Built {ℓ} (A : Type ℓ) : Type ℓ where
  built : A → Built A
  value_error : ConfigError → Built A

-- RateLimiter.__init__
pub init : ℕ → ℕ → ℕ → Built RateLimiter
init max_attempts window_seconds lockout_reinstate_minutes =
    if ltb max_attempts 1
    then value_error max_attempts_too_small
    else if ltb window_seconds 1
    then value_error window_too_small
    else built (record {
      max_attempts = max_attempts;
      window_seconds = window_seconds;
      lockout_reinstate_minutes = lockout_reinstate_minutes;
      failures = Dict.empty;
    })

-- What a call comes back with: the limiter, and the `retry_after_seconds` of a raised
-- RateLimitExceededError.
abbrev pub Outcome : Type 0
Outcome = RateLimiter × Option ℕ

-- now - record.window_start > self.window_seconds
abbrev pub window_expired : RateLimiter → FailureRecord → ℕ → Bool
window_expired l r now = ltb (r.window_start + l.window_seconds * second) now

abbrev pub lockout_seconds : RateLimiter → ℕ
lockout_seconds l = l.lockout_reinstate_minutes * 60

-- record.failed_attempts >= self.max_attempts and record.locked_at > 0
abbrev pub locked : RateLimiter → FailureRecord → Bool
locked l r = leb l.max_attempts r.failed_attempts && ltb 0 r.locked_at

-- max(0.0, now - record.locked_at) >= lockout_seconds
abbrev pub lockout_over : RateLimiter → FailureRecord → ℕ → Bool
lockout_over l r now = leb (lockout_seconds l * second) (now - r.locked_at)

abbrev pub store : RateLimiter → String → FailureRecord → RateLimiter
store l user r = record l { failures = Dict.put l.failures user r }

abbrev pub forget : RateLimiter → String → RateLimiter
forget l user = record l { failures = Dict.remove l.failures user }

-- The record that a failure is counted in: the user's own, or a new one, its window restarted
-- if it has expired.
opened : RateLimiter → ℕ → String → Option FailureRecord → FailureRecord
opened l now user none = record {
  user_id = user;
  failed_attempts = 0;
  window_start = now;
  locked_at = 0;
}
opened l now user (some r) =
    if window_expired l r now then record r { failed_attempts = 0; window_start = now } else r

count_failure : RateLimiter → ℕ → FailureRecord → FailureRecord
count_failure l now r =
    let r' = record r { failed_attempts = r.failed_attempts + 1 } in
    if leb l.max_attempts r'.failed_attempts then record r' { locked_at = now } else r'

-- The user's record once this failure is counted.
pub after_failure : RateLimiter → ℕ → String → FailureRecord
unfolding opened count_failure
after_failure l now user = count_failure l now (opened l now user (Dict.get l.failures user))

pub record_failure : RateLimiter → ℕ → String → Outcome
record_failure l now user =
    let r = after_failure l now user in
    let l' = store l user r in
    if leb l.max_attempts r.failed_attempts then (l', some (lockout_seconds l)) else (l', none)

pub reinstated : ℕ → FailureRecord → FailureRecord
reinstated now r = record r { failed_attempts = 0; locked_at = 0; window_start = now }

check_record : RateLimiter → ℕ → String → FailureRecord → Outcome
unfolding reinstated
check_record l now user r =
    if window_expired l r now
    then (forget l user, none)
    else if locked l r
    then (if lockout_over l r now
        then (store l user (reinstated now r), none)
        else (l, some ((lockout_seconds l * second - (now - r.locked_at)) / second)))
    else if leb l.max_attempts r.failed_attempts
    then (l, some (lockout_seconds l))
    else (l, none)

unfoldable pub check : RateLimiter → ℕ → String → Outcome
unfolding check_record
check l now user = elim (Dict.get l.failures user) [
  | none ↦ (l, none)
  | some r ↦ check_record l now user r
]

pub record_success : RateLimiter → String → RateLimiter
record_success l user = forget l user

pub reset : RateLimiter → String → RateLimiter
reset l user = forget l user

remaining_of : RateLimiter → ℕ → String → FailureRecord → RateLimiter × ℕ
unfolding reinstated
remaining_of l now user r =
    if window_expired l r now
    then (l, l.max_attempts)
    else if locked l r && lockout_over l r now
    then (store l user (reinstated now r), l.max_attempts)
    else (l, l.max_attempts - r.failed_attempts)

pub get_remaining_attempts : RateLimiter → ℕ → String → RateLimiter × ℕ
unfolding remaining_of
get_remaining_attempts l now user = elim (Dict.get l.failures user) [
  | none ↦ (l, l.max_attempts)
  | some r ↦ remaining_of l now user r
]

abbrev expired : RateLimiter → ℕ → FailureRecord → Bool
expired l now r = window_expired l r now || (locked l r && lockout_over l r now)

pub cleanup_expired : RateLimiter → ℕ → RateLimiter × ℕ
cleanup_expired l now = (
  record l { failures = Dict.sweep (expired l now) l.failures },
  Dict.count (expired l now) l.failures,
)
