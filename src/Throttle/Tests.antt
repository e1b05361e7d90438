-- ===== src/Throttle/Tests.antt =====
-- One server of packages/server/src/server/middleware/rate_limit.py that allows two logins a minute.
use venya.Prelude.{ℕ, ◌+◌, ◌-◌, ◌*◌, ◌≤◌, ◌≡◌, refl, true, none, List, [], ◌∷◌, arith, second}
use venya.Prelude.Dict
use venya.Throttle.{
  failures_of, auth, Middleware, truncated, window_seconds, retry_after, count_of,
  check_break_glass_backoff, backoff_of, last,
}
use venya.Throttle.Windows.{Visit, admitted, admitted_bound}
use venya.Throttle.Backoff.{retry_opens_window, backoff_ends, IsLog}

abbrev server : Middleware
server = record {
  enforce = true;
  requests_per_minute = 100;
  auth_requests_per_minute = 2;
  break_glass_per_hour = 5;
  issuance_per_hour = 5;
  failures = Dict.put Dict.empty "10.0.0.1" (second ∷ 2 * second ∷ []);
}

abbrev login : ℕ → Visit
login now = record {
  server = server;
  before = now;
  now = now;
  after = now;
  ready = true;
  status = 200;
  request = record { path = "/api/v1/auth/login"; ip = "10.0.0.1"; account = none };
}

abbrev visits : List Visit
visits = login second ∷ login (2 * second) ∷ login (3 * second) ∷ login (61 * second) ∷ []

admitted_bound_example : admitted "10.0.0.1" auth 0 [] visits ≤ 2 - count_of "10.0.0.1" auth 0 []
admitted_bound_example =
    admitted_bound "10.0.0.1" auth 0 2 [] visits
      ((refl, omega arith), ((refl, omega arith), ((refl, omega arith), ((refl, omega arith), tt))))

waits : 3 * second + retry_after auth (3 * second) * second ≤ 60 * second
unfolding retry_after
waits = omega arith

retry_opens_window_example :
    (1 ≤ retry_after auth (3 * second))
    × (retry_after auth (3 * second) ≤ window_seconds auth)
    × (truncated auth (3 * second) + window_seconds auth * second ≤ truncated auth (60 * second))
retry_opens_window_example = retry_opens_window auth (3 * second) (60 * second) waits

backed_off : check_break_glass_backoff server (3 * second) "10.0.0.1" ≡ 1
unfolding check_break_glass_backoff backoff_of last Dict.get Dict.put Dict.empty
backed_off = refl

log : IsLog (3 * second) (failures_of server "10.0.0.1")
unfolding Dict.get Dict.put Dict.empty
log = (omega arith, (omega arith, tt), (omega arith, tt, tt))

backoff_ends_example :
    (check_break_glass_backoff server (3 * second) "10.0.0.1" ≤ 16)
    × (check_break_glass_backoff server (4 * second) "10.0.0.1" ≡ 0)
backoff_ends_example =
    backoff_ends server "10.0.0.1" (3 * second) (4 * second) log (omega (arith, backed_off))
      (omega (arith, backed_off))
