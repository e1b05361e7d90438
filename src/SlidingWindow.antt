-- ===== src/SlidingWindow.antt =====
-- packages/server/src/server/utils/rate_limiter.py: the sliding window limiter over several keys.
-- Each method takes the reading of `time.monotonic()` that it makes, in microseconds; the window is
-- in microseconds too. The lock makes each method one step.
mod Views
mod Decision
mod History
mod Advice
mod Tests
use venya.Prelude.{
  ℕ, ◌+◌, ◌-◌, ◌/◌, max, String, Bool, true, false, Option, none, some, List, [], ◌∷◌, ◌++◌, length,
  select, ltb, leb, if◌then◌else◌, second, min,
}
use venya.Prelude.Dict
use venya.Prelude.Dict.{Dict}

pub record SlidingWindow : Type 0 where
  pub max_requests : ℕ
  pub window : ℕ
  pub requests : Dict (List ℕ)

pub data ConfigError : Type 0 where
  max_requests_too_small window_too_small : ConfigError

pub data Built : Type 0 where
  built : SlidingWindow → Built
  value_error : ConfigError → Built

-- SlidingWindowRateLimiter.__init__; 0.01 s is 10000 microseconds.
pub init : ℕ → ℕ → Built
init max_requests window =
    if ltb max_requests 1
    then value_error max_requests_too_small
    else if ltb window 10000
    then value_error window_too_small
    else built (record { max_requests = max_requests; window = window; requests = Dict.empty })

-- ts > cutoff, where the cutoff is now - self.window_seconds
abbrev pub in_window : ℕ → ℕ → ℕ → Bool
in_window window now ts = ltb now (ts + window)

abbrev pub live : ℕ → ℕ → List ℕ → List ℕ
live window now = select (in_window window now)

abbrev pub or_empty : Option (List ℕ) → List ℕ
or_empty none = []
or_empty (some stamps) = stamps

-- self._requests[key]: a defaultdict
abbrev pub bucket : SlidingWindow → String → List ℕ
bucket s key = or_empty (Dict.get s.requests key)

abbrev pub with_bucket : SlidingWindow → String → List ℕ → SlidingWindow
with_bucket s key stamps = record s { requests = Dict.put s.requests key stamps }

-- min(stamps), for stamps that are not empty
pub oldest : List ℕ → ℕ
oldest [] = 0
oldest (t ∷ []) = t
oldest (t ∷ u ∷ ts) = min t (oldest (u ∷ ts))

-- The first loop: each key is cleaned, and the latest of the oldest stamps of full keys is kept.
pub clean_and_check : SlidingWindow → ℕ → List String → ℕ → SlidingWindow × ℕ
clean_and_check s now [] exceeding = (s, exceeding)
clean_and_check s now (key ∷ keys) exceeding =
    let stamps = live s.window now (bucket s key) in
    clean_and_check (with_bucket s key stamps) now keys
      (if leb s.max_requests (length stamps) then max exceeding (oldest stamps) else exceeding)

-- The second loop: each key takes a slot.
pub commit : SlidingWindow → ℕ → List String → SlidingWindow
commit s now [] = s
commit s now (key ∷ keys) = commit (with_bucket s key (bucket s key ++ now ∷ [])) now keys

pub check_and_consume : SlidingWindow → ℕ → List String → SlidingWindow × (Bool × ℕ)
check_and_consume s now keys =
    let (s', exceeding) = clean_and_check s now keys 0 in
    if ltb 0 exceeding
    then (s', (false, max 1 ((exceeding + s.window - now) / second + 1)))
    else (commit s' now keys, (true, 0))

pub is_allowed : SlidingWindow → ℕ → String → SlidingWindow × (Bool × ℕ)
is_allowed s now key = check_and_consume s now (key ∷ [])

pub get_remaining : SlidingWindow → ℕ → String → ℕ
get_remaining s now key = s.max_requests - length (live s.window now (bucket s key))

reset_of : ℕ → ℕ → List ℕ → ℕ
reset_of window now [] = 0
reset_of window now (t ∷ ts) = (oldest (t ∷ ts) + window - now) / second + 1

pub get_reset_time : SlidingWindow → ℕ → String → ℕ
unfolding reset_of
get_reset_time s now key = reset_of s.window now (live s.window now (bucket s key))

abbrev is_nil : List ℕ → Bool
is_nil [] = true
is_nil (t ∷ ts) = false

-- Each key is cleaned, and a key that is left empty is deleted.
pub cleanup_expired : SlidingWindow → ℕ → SlidingWindow × ℕ
cleanup_expired s now = (
  record s { requests = Dict.sweep is_nil (Dict.map_values (live s.window now) s.requests) },
  Dict.total (λ stamps. length stamps - length (live s.window now stamps)) s.requests,
)
