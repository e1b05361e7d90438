-- ===== src/Lockout/Tests.antt =====
-- Concrete limiters of packages/core/src/core/engine/rate_limiter.py: two attempts in 300 s, 15 min
-- of lockout.
use venya.Prelude.{
  ℕ, ◌*◌, ◌≤◌, String, ◌≡◌, refl, ◌≢◌, ◌↔◌, none, some, List, [], ◌∷◌, arith, eq_iff, second,
}
use venya.Prelude.Dict
use venya.Lockout.{
  after_failure, lockout_seconds, FailureRecord, RateLimiter, init, check, record_failure,
  get_remaining_attempts, cleanup_expired,
}
use venya.Lockout.Records.{
  ArmedAt, last_failures, Call, fails, checks, IsValid, run, run-IsValid, init-IsValid, step,
  step_isolates,
}
use venya.Lockout.Refusals.{
  HeldRecord, IsRefused, refusal_exact, refusal_honest, check-cleanup_expired, remaining_exact,
}
use venya.Lockout.Runs.{last_of, fail_all, arming_exact, lockout_lapses}

abbrev limiter : RateLimiter
limiter = record {
  max_attempts = 2;
  window_seconds = 300;
  lockout_reinstate_minutes = 15;
  failures = Dict.empty;
}

limiter-IsValid : IsValid limiter
unfolding init
limiter-IsValid = init-IsValid 2 300 15 limiter refl

abbrev at_10 : ℕ
at_10 = 10 * second

abbrev history : List (ℕ × Call)
history = (at_10, fails "ana") ∷ (12 * second, fails "ana") ∷ (20 * second, checks "ana") ∷ []

locked_out : RateLimiter
unfolding run
locked_out = run limiter history

never : String → ℕ
never user = 0

limiter-ArmedAt : ArmedAt limiter never
limiter-ArmedAt = record {
  moment = λ u r e h. absurd (cc (Dict.get-empty {V = FailureRecord} u, e));
}

run-IsValid_example :
    IsValid (run limiter history) × ArmedAt (run limiter history) (last_failures never history)
run-IsValid_example =
    run-IsValid limiter never history (omega arith) limiter-IsValid limiter-ArmedAt

locked_out-IsValid : IsValid locked_out
unfolding locked_out
locked_out-IsValid =
    (run-IsValid limiter never history (omega arith) limiter-IsValid limiter-ArmedAt).0

refusal_exact_example :
    IsRefused (check locked_out (20 * second) "ana") ↔ HeldRecord locked_out (20 * second) "ana"
refusal_exact_example = refusal_exact locked_out (20 * second) "ana" locked_out-IsValid

locked_refusal : (check locked_out (20 * second) "ana").1 ≡ some 892
unfolding locked_out check Dict.get Dict.put Dict.empty record_failure after_failure
locked_refusal = refl

ana_record :
    Dict.get locked_out.failures "ana"
    ≡ some (record {
      user_id = "ana";
      failed_attempts = 2;
      window_start = at_10;
      locked_at = 12 * second;
    })
unfolding locked_out check Dict.get Dict.put Dict.empty record_failure after_failure
ana_record = refl

ana_past :
    (r : FailureRecord) → Dict.get locked_out.failures "ana" ≡ some r → r.locked_at ≤ 20 * second
ana_past r e = ground (arith, ana_record)

refusal_honest_example :
    ((check locked_out (20 * second) "ana").0 ≡ locked_out)
    × (892 ≤ lockout_seconds locked_out)
    × ((check locked_out (913 * second) "ana").1 ≡ none)
refusal_honest_example =
    refusal_honest locked_out (20 * second) "ana" 892 (913 * second) locked_out-IsValid ana_past
      locked_refusal (omega arith)

check-cleanup_expired_example :
    (check (cleanup_expired locked_out (20 * second)).0 (20 * second) "ana").1
    ≡ (check locked_out (20 * second) "ana").1
check-cleanup_expired_example = check-cleanup_expired locked_out (20 * second) "ana"

remaining_exact_example :
    ((get_remaining_attempts locked_out (20 * second) "ana").1 ≡ 0)
    ↔ HeldRecord locked_out (20 * second) "ana"
remaining_exact_example = remaining_exact locked_out (20 * second) "ana" locked_out-IsValid

arming_exact_example :
    ((fail_all limiter "ana" at_10 (12 * second ∷ [])).1 ≡ some 900)
    × ((check (fail_all limiter "ana" at_10 (12 * second ∷ [])).0 (20 * second) "ana").1 ≡ some 892)
unfolding last_of
arming_exact_example =
    arming_exact limiter "ana" at_10 (20 * second) (12 * second ∷ []) (Dict.get-empty "ana")
      (omega arith) (omega arith) (omega arith)

-- Released after 301 s, though 900 s of lockout were announced at 12 s.
lockout_lapses_example :
    (check (fail_all limiter "ana" at_10 (12 * second ∷ [])).0 (311 * second) "ana").1 ≡ none
lockout_lapses_example =
    lockout_lapses limiter "ana" at_10 (311 * second) (12 * second ∷ []) (Dict.get-empty "ana")
      (omega arith) (omega arith)

ana_not_bob : ◌≢◌ {A = String} "ana" "bob"
ana_not_bob = ground (arith, eq_iff "ana" "bob")

step_isolates_example :
    Dict.get (step locked_out (30 * second, fails "ana")).failures "bob"
    ≡ Dict.get locked_out.failures "bob"
step_isolates_example =
    step_isolates locked_out "ana" "bob" (30 * second) (fails "ana") ana_not_bob refl
