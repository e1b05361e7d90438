-- ===== src/Lockout/Runs.antt =====
-- Runs of failures against packages/core/src/core/engine/rate_limiter.py: when the lockout arms,
-- and how long it really holds.
use venya.Prelude.{
  ℕ, suc, ◌+◌, ◌-◌, ◌*◌, ◌/◌, ◌≤◌, ◌<◌, String, ◌≡◌, refl, sym, ap, subst, inl, inr, true, ◌&&◌,
  none, some, List, [], ◌∷◌, arith, second, ltb, leb, if◌then◌else◌, Bool-cases, length, All,
}
use venya.Prelude.Dict
use venya.Prelude.Dict.{get-put_self}
use venya.Lockout.{
  FailureRecord, RateLimiter, Outcome, after_failure, record_failure, check, forget, store,
  lockout_seconds, check_record,
}
use venya.Lockout.Records.{record_failure-store}

-- One user's failures at the given times; the outcome is that of the last.
pub fail_all : RateLimiter → String → ℕ → List ℕ → Outcome
fail_all l user t [] = record_failure l t user
fail_all l user t (t' ∷ ts) = fail_all (record_failure l t user).0 user t' ts

fail_all-next :
    (l : RateLimiter) (user : String) (t t' : ℕ) (ts : List ℕ)
    → fail_all l user t (t' ∷ ts) ≡ fail_all (store l user (after_failure l t user)) user t' ts
unfolding fail_all
fail_all-next l user t t' ts =
    ap (λ (o : Outcome). fail_all o.0 user t' ts) (record_failure-store l t user)

-- The last of the times.
unfoldable pub last_of : ℕ → List ℕ → ℕ
last_of t [] = t
last_of t (t' ∷ ts) = last_of t' ts

-- The user has failed `n` times since `start`, the last time at `last`.
record Counts (l : RateLimiter) (user : String) (start n last : ℕ) : Type 0 where
  r : FailureRecord
  found : Dict.get l.failures user ≡ some r
  counted : r.failed_attempts ≡ n
  opened_at : r.window_start ≡ start
  armed : leb l.max_attempts n ≡ true → r.locked_at ≡ last

abbrev pub OpenUntil : RateLimiter → ℕ → ℕ → Type 0
OpenUntil l start t = t ≤ start + l.window_seconds * second

module _ (user : String) (start : ℕ) where
  module _ (l : RateLimiter) (t n last : ℕ) (c : Counts l user start n last)
      (h : OpenUntil l start t) where
    counted_failure : (after_failure l t user).failed_attempts ≡ n + 1
    unfolding after_failure
    counted_failure = rw c.found (ground (arith, c.counted, c.opened_at))

    kept_window : (after_failure l t user).window_start ≡ start
    unfolding after_failure
    kept_window = rw c.found (ground (arith, c.counted, c.opened_at))

    marked_failure : leb l.max_attempts (n + 1) ≡ true → (after_failure l t user).locked_at ≡ t
    unfolding after_failure
    marked_failure reached = rw c.found (ground (arith, c.counted, c.opened_at, reached))

    Counts-store : Counts (store l user (after_failure l t user)) user start (n + 1) t
    Counts-store = record {
      r = after_failure l t user;
      found = get-put_self l.failures user _;
      counted = counted_failure;
      opened_at = kept_window;
      armed = marked_failure;
    }

  -- The last of a row of failures inside one window is refused exactly from the limit on.
  Tally : RateLimiter → ℕ → ℕ → Outcome → Type 0
  Tally l n last o =
      (o.1 ≡ (if leb l.max_attempts n then some (lockout_seconds l) else none))
      × Counts o.0 user start n last
      × (o.0 ≡ record l { failures = o.0.failures })

  fail_all-Tally :
      (l : RateLimiter) (n t last : ℕ) (ts : List ℕ)
      → Counts l user start n last
      → OpenUntil l start t
      → All (OpenUntil l start) ts
      → Tally l (n + 1 + length ts) (last_of t ts) (fail_all l user t ts)
  unfolding fail_all Tally last_of
  fail_all-Tally l n t last [] c h hs =
      let only : n + 1 + 0 ≡ n + 1 = omega arith in
      rw (record_failure-store l t user, only)
        (rw (counted_failure l t n last c h), Counts-store l t n last c h, refl)
  fail_all-Tally l n t last (t' ∷ ts) c h hs =
      let more : n + 1 + suc (length ts) ≡ n + 1 + 1 + length ts = omega arith in
      rw (fail_all-next l user t t' ts, more)
        (fail_all-Tally (store l user (after_failure l t user)) (n + 1) t' t ts
          (Counts-store l t n last c h) hs.0 hs.1)

  -- The window is over: whatever the lockout, `check` lets the user through.
  Counts-passes :
      (l : RateLimiter) (n last later : ℕ)
      → Counts l user start n last
      → start + l.window_seconds * second < later
      → check l later user ≡ (forget l user, none)
  unfolding check check_record
  Counts-passes l n last later c h = rw (c.found, check) (ground arith)

  -- The window is open: `check` refuses while the limit is reached and the lockout runs.
  Counts-check :
      (l : RateLimiter) (n last later : ℕ)
      → Counts l user start n last
      → 0 < last
      → OpenUntil l start later
      → (check l later user).1 ≡ (
          if leb l.max_attempts n && ltb (later - last) (lockout_seconds l * second)
          then some ((lockout_seconds l * second - (later - last)) / second)
          else none)
  unfolding check check_record
  Counts-check l n last later c p h = elim (Bool-cases (leb l.max_attempts n)) [
    | inl e ↦ rw (c.found, check) (ground (arith, e, c.counted, c.opened_at, c.armed e))
    | inr e ↦ rw (c.found, check) (ground (arith, e, c.counted, c.opened_at))
  ]

first_failure :
    (l : RateLimiter) (user : String) (t : ℕ)
    → Dict.get l.failures user ≡ none
    → ((after_failure l t user).failed_attempts ≡ 1)
      × ((after_failure l t user).window_start ≡ t)
      × (leb l.max_attempts 1 ≡ true → (after_failure l t user).locked_at ≡ t)
unfolding after_failure
first_failure l user t e = rw e (ground arith, ground arith, λ h. ground (arith, h))

first-Counts :
    (l : RateLimiter) (user : String) (t : ℕ)
    → Dict.get l.failures user ≡ none
    → Counts (store l user (after_failure l t user)) user t 1 t
first-Counts l user t e =
    let f = first_failure l user t e in
    record {
      r = after_failure l t user;
      found = get-put_self l.failures user _;
      counted = f.0;
      opened_at = f.1;
      armed = f.2;
    }

fresh-Tally :
    (l : RateLimiter) (user : String) (t : ℕ) (ts : List ℕ)
    → Dict.get l.failures user ≡ none
    → All (OpenUntil l t) ts
    → Tally user t l (1 + length ts) (last_of t ts) (fail_all l user t ts)
unfolding fail_all Tally last_of
fresh-Tally l user t [] e hs =
    let one : 1 + 0 ≡ 1 = refl in
    rw (record_failure-store l t user)
      (rw ((first_failure l user t e).0), first-Counts l user t e, refl)
fresh-Tally l user t (t' ∷ ts) e hs =
    let more : 1 + suc (length ts) ≡ 1 + 1 + length ts = omega arith in
    rw (fail_all-next l user t t' ts, more)
      (fail_all-Tally user t (store l user (after_failure l t user)) 1 t' t ts
        (first-Counts l user t e) hs.0 hs.1)

-- A user with no record who fails again and again inside one window is locked out exactly when the
-- failures reach the limit: then the last failure announces the whole lockout, and `check`, as long
-- as that window is open, refuses until the lockout since the last failure has run out, with the
-- whole seconds that are left as the advice. Else neither refuses. The last failure is at a positive
-- moment.
pub arming_exact :
    (l : RateLimiter) (user : String) (t later : ℕ) (ts : List ℕ)
    → Dict.get l.failures user ≡ none
    → All (OpenUntil l t) ts
    → 0 < last_of t ts
    → OpenUntil l t later
    → ((fail_all l user t ts).1
        ≡ (if leb l.max_attempts (1 + length ts) then some (lockout_seconds l) else none))
      × ((check (fail_all l user t ts).0 later user).1 ≡ (
          if leb l.max_attempts (1 + length ts)
            && ltb (later - last_of t ts) (lockout_seconds l * second)
          then some ((lockout_seconds l * second - (later - last_of t ts)) / second)
          else none))
unfolding Tally
arming_exact l user t later ts e hs p w =
    let c = fresh-Tally l user t ts e hs in
    (
      c.0,
      subst
          (λ m. (check (fail_all l user t ts).0 later user).1 ≡ (
            if leb m.max_attempts (1 + length ts)
              && ltb (later - last_of t ts) (lockout_seconds m * second)
            then some ((lockout_seconds m * second - (later - last_of t ts)) / second)
            else none))
          c.2
          (Counts-check user t (fail_all l user t ts).0 (1 + length ts) (last_of t ts) later c.1 p
            (subst (λ m. later ≤ t + m * second) (sym (ap (λ m. m.window_seconds) c.2)) w)),
    )

-- The lockout ends with the counting window: a user with no record fails any number of times
-- inside one window, and once more than the window has passed since the first failure, `check`
-- lets them through, also where the lockout that the last failure announced has longer to run.
pub lockout_lapses :
    (l : RateLimiter) (user : String) (t later : ℕ) (ts : List ℕ)
    → Dict.get l.failures user ≡ none
    → All (OpenUntil l t) ts
    → t + l.window_seconds * second < later
    → (check (fail_all l user t ts).0 later user).1 ≡ none
unfolding Tally
lockout_lapses l user t later ts e hs w =
    let c = fresh-Tally l user t ts e hs in
    ap (λ (o : Outcome). o.1)
      (Counts-passes user t (fail_all l user t ts).0 (1 + length ts) (last_of t ts) later c.1
        (subst (λ m. t + m * second < later) (sym (ap (λ m. m.window_seconds) c.2)) w))
