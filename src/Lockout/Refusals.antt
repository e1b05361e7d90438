-- ===== src/Lockout/Refusals.antt =====
-- When `check` of packages/core/src/core/engine/rate_limiter.py refuses a user, and for how long.
use venya.Prelude.{
  second, ℕ, ◌+◌, ◌-◌, ◌*◌, ◌/◌, ◌≤◌, ◌<◌, String, ◌≡◌, ◌↔◌, refl, ap, sym, subst, ◌∙◌, some,
  Option, none, arith, Option-cases, inl, inr,
}
use venya.Prelude.Dict
use venya.Prelude.Dict.{Dict, kept, get-sweep}
use venya.Lockout.{
  FailureRecord, RateLimiter, Outcome, check, get_remaining_attempts, cleanup_expired,
  lockout_seconds, check_record, remaining_of, expired,
}
use venya.Lockout.Records.{IsGood, IsValid}

-- The record's window is open, its limit is reached, and its lockout has not run out.
pub record InLockout (l : RateLimiter) (now : ℕ) (r : FailureRecord) : Type 0 where
  pub window : now ≤ r.window_start + l.window_seconds * second
  pub reached : l.max_attempts ≤ r.failed_attempts
  pub lasting : now - r.locked_at < lockout_seconds l * second

abbrev pub HeldRecord : RateLimiter → ℕ → String → Type 0
HeldRecord l now user =
    (r : FailureRecord) × (Dict.get l.failures user ≡ some r) × InLockout l now r

abbrev pub IsRefused : Outcome → Type 0
IsRefused o = (s : ℕ) × (o.1 ≡ some s)

module _ (l : RateLimiter) (now : ℕ) (user : String) where
  check-none : Dict.get l.failures user ≡ none → check l now user ≡ (l, none)
  unfolding check
  check-none e = rw (e, check)

  check-some :
      (r : FailureRecord)
      → Dict.get l.failures user ≡ some r
      → check l now user ≡ check_record l now user r
  unfolding check
  check-some r e = rw (e, check)

  record_refuses :
      (r : FailureRecord)
      → IsGood l.max_attempts user r
      → InLockout l now r
      → check_record l now user r
        ≡ (l, some ((lockout_seconds l * second - (now - r.locked_at)) / second))
  unfolding check_record
  record_refuses r g h = ground arith

  refused_record :
      (r : FailureRecord) (s : ℕ)
      → IsGood l.max_attempts user r
      → (check_record l now user r).1 ≡ some s
      → InLockout l now r
  unfolding check_record
  refused_record r s g h = ground arith

  refused-held : IsValid l → IsRefused (check l now user) → HeldRecord l now user
  refused-held v h = elim (Option-cases (Dict.get l.failures user)) [
    | inl e ↦ absurd (cc (h.1, check-none e))
    | inr (r, e) ↦ (r, e, refused_record r h.0 (v.sound.at user r e) (rw (check-some r e) at h.1))
  ]

  held_refusal :
      IsValid l
      → (h : HeldRecord l now user)
      → check l now user ≡ (l, some ((lockout_seconds l * second - (now - h.0.locked_at)) / second))
  held_refusal v h = check-some h.0 h.1 ∙ record_refuses h.0 (v.sound.at user h.0 h.1) h.2

  -- In a limiter that satisfies the invariant, `check` refuses a user exactly while a record of
  -- theirs has reached the limit, its window is open and its lockout has not run out.
  pub refusal_exact : IsValid l → IsRefused (check l now user) ↔ HeldRecord l now user
  refusal_exact v = (refused-held v, λ h. (_, ap (λ (o : Outcome). o.1) (held_refusal v h)))

  passes_record :
      (r : FailureRecord) (later : ℕ)
      → IsGood l.max_attempts user r
      → InLockout l now r
      → r.locked_at ≤ now
      → now + ((lockout_seconds l * second - (now - r.locked_at)) / second + 1) * second ≤ later
      → (check_record l later user r).1 ≡ none
  unfolding check_record
  passes_record r later g h past w = ground arith

  check_at :
      (t : ℕ) (r : FailureRecord)
      → Dict.get l.failures user ≡ some r
      → check l t user ≡ check_record l t user r
  unfolding check
  check_at t r e = rw (e, check)

  -- In a limiter that satisfies the invariant and whose record of the user was locked in the past,
  -- a refusal changes nothing, promises at most the whole lockout, and is over one second after
  -- the time that it promises, if no other failure is recorded until then.
  pub refusal_honest :
      (s later : ℕ)
      → IsValid l
      → ((r : FailureRecord) → Dict.get l.failures user ≡ some r → r.locked_at ≤ now)
      → (check l now user).1 ≡ some s
      → now + (s + 1) * second ≤ later
      → ((check l now user).0 ≡ l) × (s ≤ lockout_seconds l) × ((check l later user).1 ≡ none)
  refusal_honest s later v past e w =
      let h = refused-held v (s, e) in
      let whole = held_refusal v h in
      let told : (lockout_seconds l * second - (now - h.0.locked_at)) / second ≡ s =
        cc (whole, e) in
      (
        ap (λ (o : Outcome). o.0) whole,
        omega (arith, told),
        ap (λ (o : Outcome). o.1) (check_at later h.0 h.1)
            ∙ passes_record h.0 later (v.sound.at user h.0 h.1) h.2 (past h.0 h.1)
                (omega (arith, told)),
      )

-- What `check` answers, as a function of the user's record.
abbrev refusal_of : RateLimiter → ℕ → String → Option FailureRecord → Option ℕ
refusal_of l now user none = none
refusal_of l now user (some r) = (check_record l now user r).1

module _ (l : RateLimiter) (now : ℕ) (user : String) where
  check-refusal_of : (check l now user).1 ≡ refusal_of l now user (Dict.get l.failures user)
  unfolding check
  check-refusal_of = elim (Option-cases (Dict.get l.failures user)) [
    | inl e ↦ rw (e, check)
    | inr (r, e) ↦ rw (e, check)
  ]

  refusal_of-kept :
      (failures : Dict FailureRecord) (o : Option FailureRecord)
      → refusal_of (record l { failures = failures }) now user (kept (expired l now) o)
        ≡ refusal_of l now user o
  unfolding check_record
  refusal_of-kept failures none = refl
  refusal_of-kept failures (some r) = ground arith

  remaining_record :
      (r : FailureRecord)
      → IsGood l.max_attempts user r
      → 1 ≤ l.max_attempts
      → ((remaining_of l now user r).1 ≡ 0) ↔ InLockout l now r
  unfolding remaining_of
  remaining_record r g m = (λ h. ground arith, λ h. ground arith)

  remaining-some :
      (r : FailureRecord)
      → Dict.get l.failures user ≡ some r
      → get_remaining_attempts l now user ≡ remaining_of l now user r
  unfolding get_remaining_attempts
  remaining-some r e = rw (e, get_remaining_attempts)

  remaining-none :
      Dict.get l.failures user ≡ none → get_remaining_attempts l now user ≡ (l, l.max_attempts)
  unfolding get_remaining_attempts
  remaining-none e = rw (e, get_remaining_attempts)

-- The sweep removes only records that no longer refuse: no user's check comes out differently.
pub check-cleanup_expired :
    (l : RateLimiter) (now : ℕ) (user : String)
    → (check (cleanup_expired l now).0 now user).1 ≡ (check l now user).1
unfolding cleanup_expired
check-cleanup_expired l now user =
    rw (check-refusal_of, get-sweep)
      (refusal_of-kept l now user _ (Dict.get l.failures user) ∙ sym (check-refusal_of l now user))

-- In a limiter that satisfies the invariant, a user has no attempts left exactly while a record of
-- theirs has reached the limit, its window is open and its lockout has not run out.
pub remaining_exact :
    (l : RateLimiter) (now : ℕ) (user : String)
    → IsValid l
    → ((get_remaining_attempts l now user).1 ≡ 0) ↔ HeldRecord l now user
remaining_exact l now user v = elim (Option-cases (Dict.get l.failures user)) [
  | inl e ↦
      rw (remaining-none l now user e)
        ((λ h. absurd (omega (arith, v.limit))), λ h. absurd (cc (e, h.1)))
  | inr (r, e) ↦
      let same = remaining_record l now user r (v.sound.at user r e) v.limit in
      rw (remaining-some l now user r e)
        ((λ h. (r, e, same.0 h)), λ h. same.1 (subst (InLockout l now) (cc (h.1, e)) h.2))
]
