-- ===== src/Throttle.antt =====
-- packages/server/src/server/middleware/rate_limit.py: the fixed-window counters of requests and the back-off
-- of the break-glass route. Clock readings are microseconds, those of the database and those of
-- `time.monotonic()` alike. A request carries its client's address and account as they were read
-- from it; what `call_next` returns is its status, an argument.
mod Windows
mod Backoff
mod Tests
use Prim.Native.String.{[] as []ˢ, ◌∷◌ as ◌∷ˢ◌}
use Prim.Native.Nat.{◌^◌}
use Prim.Native.Char.{Char, code}
use text.Mathlib.Text.{starts_with}
use venya.Prelude.{
  ℕ, zero, suc, ◌+◌, ◌-◌, ◌*◌, ◌/◌, ◌≤◌, ◌<◌, min, max, String, ◌≡◌, refl, sym, ap, subst, ◌∙◌, ◌≢◌,
  ◌↔◌, ◌⊎◌, inl, inr, Bool, true, false, ◌&&◌, ◌||◌, not, Option, none, some, List, [], ◌∷◌, ◌++◌,
  map, arith, ◌==◌, eq_iff, second, ltb, leb, ◌=?◌, if◌then◌else◌, Bool-cases, Option-cases, length,
  select, length-append, length-select-le, select-append, All, replicate, length-replicate,
}
use venya.Prelude.Dict
use venya.Prelude.Dict.{Dict}

-- The values of `endpoint_type`.
pub data Tier : Type 0 where
  break_glass cert_issuance auth generic : Tier

-- RateLimitMiddleware
pub record Middleware : Type 0 where
  pub enforce : Bool
  pub requests_per_minute : ℕ
  pub auth_requests_per_minute : ℕ
  pub break_glass_per_hour : ℕ
  pub issuance_per_hour : ℕ
  pub failures : Dict (List ℕ)

-- The fields that the constructor reads of the configuration of rate limits.
pub record Config : Type 0 where
  pub enforced : Bool
  pub ip_rate_limit : ℕ
  pub auth_rate_limit : ℕ
  pub break_glass_rate_limit : ℕ
  pub cert_issuance_rate_limit : Option ℕ

pub record Request : Type 0 where
  pub path : String
  pub ip : String
  pub account : Option String

-- A row of the table rate_limit_failures.
pub record Counter : Type 0 where
  pub identifier : String
  pub endpoint_type : Tier
  pub window_start : ℕ
  pub count : ℕ

pub data Response : Type 0 where
  -- The status that the application answers with.
  passed : ℕ → Response
  -- 429 with its Retry-After.
  too_many_requests : ℕ → Response
  -- 503
  backend_not_initialized : Response

abbrev or_default {ℓ} : {A : Type ℓ} → A → Option A → A
or_default a none = a
or_default a (some b) = b

-- RateLimitMiddleware.__init__: the given `break_glass_per_hour` is not used.
pub init : Option Config → ℕ → ℕ → ℕ → ℕ → Middleware
init none requests_per_minute auth_requests_per_minute break_glass_per_hour issuance_per_hour =
    record {
      enforce = true;
      requests_per_minute = requests_per_minute;
      auth_requests_per_minute = auth_requests_per_minute;
      break_glass_per_hour = 5;
      issuance_per_hour = issuance_per_hour;
      failures = Dict.empty;
    }
init (some c) requests_per_minute auth_requests_per_minute break_glass_per_hour issuance_per_hour =
    record {
      enforce = c.enforced;
      requests_per_minute = c.ip_rate_limit;
      auth_requests_per_minute = c.auth_rate_limit;
      break_glass_per_hour = c.break_glass_rate_limit;
      issuance_per_hour = or_default 5 c.cert_issuance_rate_limit;
      failures = Dict.empty;
    }

is_empty : String → Bool
is_empty []ˢ = true
is_empty (c ∷ˢ s) = false

-- path.rstrip("/")
rstrip_slash : String → String
unfolding is_empty
rstrip_slash []ˢ = []ˢ
rstrip_slash (c ∷ˢ s) =
    let rest = rstrip_slash s in if (code c =? 47) && is_empty rest then []ˢ else c ∷ˢ rest

abbrev pub is_break_glass_endpoint : String → Bool
is_break_glass_endpoint path = path == "/api/v1/recovery"

pub is_cert_issuance_endpoint : String → Bool
unfolding rstrip_slash
is_cert_issuance_endpoint path = rstrip_slash path == "/api/v1/admin/certs/issue"

abbrev pub is_auth_endpoint : String → Bool
is_auth_endpoint path = starts_with path "/api/v1/auth/" || starts_with path "/api/v1/enrollment/"

-- The endpoint type that `dispatch` determines.
pub tier_of : String → Tier
unfolding is_cert_issuance_endpoint
tier_of path =
    if is_break_glass_endpoint path
    then break_glass
    else if is_cert_issuance_endpoint path
    then cert_issuance
    else if is_auth_endpoint path
    then auth
    else generic

abbrev pub limit_of : Middleware → Tier → ℕ
limit_of m break_glass = m.break_glass_per_hour
limit_of m cert_issuance = m.issuance_per_hour
limit_of m auth = m.auth_requests_per_minute
limit_of m generic = m.requests_per_minute

-- The window lengths, as _window_bucket_shape gives them.
abbrev pub window_seconds : Tier → ℕ
window_seconds break_glass = 3600
window_seconds cert_issuance = 3600
window_seconds auth = 60
window_seconds generic = 60

-- date_trunc(unit, now())
abbrev pub truncated : Tier → ℕ → ℕ
truncated break_glass now = now / 3600000000 * 3600000000
truncated cert_issuance now = now / 3600000000 * 3600000000
truncated auth now = now / 60000000 * 60000000
truncated generic now = now / 60000000 * 60000000

abbrev pub ceil_seconds : ℕ → ℕ
ceil_seconds t = (t + 999999) / 1000000

-- _clamp_retry_after of the seconds left in the window
pub retry_after : Tier → ℕ → ℕ
retry_after tier now =
    max 1 (ceil_seconds (truncated tier now + window_seconds tier * second - now))

abbrev same_tier : Tier → Tier → Bool
same_tier break_glass break_glass = true
same_tier cert_issuance cert_issuance = true
same_tier auth auth = true
same_tier generic generic = true
same_tier _ _ = false

abbrev pub is_key : String → Tier → ℕ → Counter → Bool
is_key identifier tier start c =
    (c.identifier == identifier) && (same_tier c.endpoint_type tier && (c.window_start =? start))

-- The UPSERT: the table afterwards.
pub increment : String → Tier → ℕ → List Counter → List Counter
increment identifier tier start [] =
    record { identifier = identifier; endpoint_type = tier; window_start = start; count = 1 } ∷ []
increment identifier tier start (c ∷ cs) =
    let rest = increment identifier tier start cs in
    if is_key identifier tier start c then record c { count = suc c.count } ∷ cs else c ∷ rest

-- The count of a key, 0 when it has no row.
pub count_of : String → Tier → ℕ → List Counter → ℕ
count_of identifier tier start [] = 0
count_of identifier tier start (c ∷ cs) =
    if is_key identifier tier start c then c.count else count_of identifier tier start cs

abbrev recent : ℕ → ℕ → Bool
recent now t = ltb (now - t) (3600 * second)

-- min(2 ** (n - 1), 16), for n failures
abbrev pub backoff_seconds : ℕ → ℕ
backoff_seconds n = min (2 ^ (n - 1)) 16

last : List ℕ → ℕ
last [] = 0
last (t ∷ []) = t
last (t ∷ u ∷ ts) = last (u ∷ ts)

-- _check_break_glass_backoff once the failures of the last hour are known
backoff_of : ℕ → List ℕ → ℕ
unfolding last
backoff_of now [] = 0
backoff_of now (t ∷ ts) =
    let backoff = backoff_seconds (length (t ∷ ts)) * second in
    let elapsed = now - last (t ∷ ts) in
    if ltb elapsed backoff then max 1 (ceil_seconds (backoff - elapsed)) else 0

abbrev failures_of : Middleware → String → List ℕ
failures_of m ip = or_default [] (Dict.get m.failures ip)

pub check_break_glass_backoff : Middleware → ℕ → String → ℕ
unfolding backoff_of
check_break_glass_backoff m now ip = backoff_of now (select (recent now) (failures_of m ip))

pub record_break_glass_failure : Middleware → ℕ → String → Middleware
record_break_glass_failure m now ip = record m {
  failures = Dict.put m.failures ip (failures_of m ip ++ now ∷ []);
}

-- user_id[:n]
take : ℕ → String → String
take zero s = []ˢ
take (suc n) []ˢ = []ˢ
take (suc n) (c ∷ˢ s) = c ∷ˢ take n s

-- A caller with an account is counted by it, any other by the address; the first 64 characters are kept.
unfoldable pub issuance_identifier : Request → String
unfolding take
issuance_identifier r = named r.account
  where
    named : Option String → String
    named none = r.ip
    named (some user) = if user == "" then r.ip else take 64 user

-- The key under which a request is counted.
pub identifier_of : Tier → Request → String
unfolding issuance_identifier
identifier_of break_glass r = r.ip
identifier_of cert_issuance r = issuance_identifier r
identifier_of auth r = r.ip
identifier_of generic r = r.ip

-- Once the application has answered: a 401 of the break-glass route is recorded.
pub answered : Middleware → Tier → Request → ℕ → ℕ → Middleware
unfolding record_break_glass_failure
answered m break_glass r after status =
    if status =? 401 then record_break_glass_failure m after r.ip else m
answered m _ r after status = m

-- The back-off that is checked before a request of this tier is counted.
pub backoff_remaining : Middleware → Tier → ℕ → Request → ℕ
unfolding check_break_glass_backoff
backoff_remaining m break_glass before r = check_break_glass_backoff m before r.ip
backoff_remaining m _ before r = 0

-- `dispatch` once the tier is known. `before` and `after` are readings of the monotonic clock, `now` is that of
-- the database, `ready` whether there is a backend and `status` what the application would answer.
pub dispatch_tier :
    Middleware
    → List Counter
    → Tier
    → ℕ
    → ℕ
    → ℕ
    → Bool
    → ℕ
    → Request
    → Middleware × (List Counter × Response)
unfolding increment count_of identifier_of answered backoff_remaining
dispatch_tier m cs tier before now after ready status r =
    let remaining = backoff_remaining m tier before r in
    let identifier = identifier_of tier r in
    let start = truncated tier now in
    let cs' = increment identifier tier start cs in
    if ltb 0 remaining
    then (m, (cs, too_many_requests remaining))
    else if not ready
    then (m, (cs, backend_not_initialized))
    else if ltb (limit_of m tier) (count_of identifier tier start cs')
    then (m, (cs', too_many_requests (retry_after tier now)))
    else (answered m tier r after status, (cs', passed status))

pub dispatch :
    Middleware
    → List Counter
    → ℕ
    → ℕ
    → ℕ
    → Bool
    → ℕ
    → Request
    → Middleware × (List Counter × Response)
unfolding dispatch_tier tier_of
dispatch m cs before now after ready status r =
    if not m.enforce
    then (m, (cs, passed status))
    else dispatch_tier m cs (tier_of r.path) before now after ready status r
